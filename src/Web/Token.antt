-- ===== src/Web/Token.antt =====
-- `TokenStore` of crates/seck-web/src/token.rs and `report_handler` of src/lib.rs.
use seck.Base.{
  ℕ, suc, ◌≤◌, ◌≡◌, ◌≢◌, refl, sym, subst, ◌∙◌, arith, Bool, true, false, List, [], ◌∷◌,
  if◌then◌else◌, equal, equal_iff, Bool-cases, inl, inr, All, Text,
}
use seck.Base.Outcome.{Result, ok, err}

-- `fresh` is the hex form of the bytes that the random generator would give.
unfoldable pub check_and_rotate : Text → Text → Text → Bool × Text
check_and_rotate fresh supplied current =
    if equal current supplied then (true, fresh) else (false, current)

pub data StatusCode : Type 0 where
  forbidden : StatusCode

-- The answer to a request for `/r/{tok}`, and the token from then on.
unfoldable pub report_handler : Text → Text → Text → Text → Result StatusCode Text × Text
unfolding check_and_rotate
report_handler page fresh tok current =
    let (hit, next) = check_and_rotate fresh tok current in
    (if hit then ok page else err forbidden, next)

pub record Request : Type 0 where
  pub tok : Text
  pub fresh : Text

-- `rest` counts the requests behind this one, from the token that it leaves.
unfoldable pub count_with : (Text → ℕ) → Bool → Result StatusCode Text × Text → ℕ
count_with rest counts (ok page, next) = if counts then suc (rest next) else rest next
count_with rest counts (err e, next) = rest next

-- The number of requests with the token `t` that get the page.
unfoldable pub served : Text → Text → Text → List Request → ℕ
unfolding count_with
served page t current [] = 0
served page t current (r ∷ rs) =
    count_with (λ next. served page t next rs) (equal r.tok t)
      (report_handler page r.fresh r.tok current)

abbrev pub IsNew : Text → List Request → Type 0
IsNew t rs = All (λ r. r.fresh ≢ t) rs

-- No token is drawn twice.
abbrev pub AllFresh : Text → List Request → Type 0
AllFresh current [] = Unit
AllFresh current (r ∷ rs) = (r.fresh ≢ current) × IsNew current rs × AllFresh r.fresh rs

report_handler-hit :
    (page fresh tok current : Text)
    → equal current tok ≡ true
    → report_handler page fresh tok current ≡ (ok page, fresh)
unfolding report_handler check_and_rotate
report_handler-hit page fresh tok current h = rw (h, report_handler, check_and_rotate) refl

report_handler-miss :
    (page fresh tok current : Text)
    → equal current tok ≡ false
    → report_handler page fresh tok current ≡ (err forbidden, current)
unfolding report_handler check_and_rotate
report_handler-miss page fresh tok current h = rw (h, report_handler, check_and_rotate) refl

served_none :
    (page t current : Text) (rs : List Request)
    → current ≢ t
    → IsNew t rs
    → served page t current rs ≡ 0
unfolding served
served_none page t current [] n f = refl
served_none page t current (r ∷ rs) n f = elim (Bool-cases (equal current r.tok)) [
  | inr miss ↦
      rw (report_handler-miss page r.fresh r.tok current miss, served)
        (served_none page t current rs n f.1)
  | inl hit ↦
      let other = miss_of r.tok t (λ e. n ((equal_iff current r.tok).0 hit ∙ e)) in
      rw (report_handler-hit page r.fresh r.tok current hit, served)
        (rw other (served_none page t r.fresh rs f.0 f.1))
]
  where
    miss_of : (a b : Text) → a ≢ b → equal a b ≡ false
    miss_of a b n = elim (Bool-cases (equal a b)) [
      | inl e ↦ absurd (n ((equal_iff a b).0 e))
      | inr e ↦ e
    ]

IsNew-AllFresh : (current : Text) (rs : List Request) → AllFresh current rs → IsNew current rs
IsNew-AllFresh current [] f = tt
IsNew-AllFresh current (r ∷ rs) f = (f.0, f.1)

AllFresh-tail :
    (current : Text) (r : Request) (rs : List Request)
    → AllFresh current (r ∷ rs)
    → AllFresh current rs
AllFresh-tail current r [] f = tt
AllFresh-tail current r (q ∷ rs) (n, new, rest) = (new.0, new.1, rest.2)

-- Whatever tokens are asked for, and in whatever order, no token gets the page twice, if the random
-- generator never draws one twice.
pub served_once :
    (page t current : Text) (rs : List Request) → AllFresh current rs → served page t current rs ≤ 1
unfolding served
served_once page t current [] f = omega arith
served_once page t current (r ∷ rs) f = elim (Bool-cases (equal current r.tok)) [
  | inr miss ↦
      rw (report_handler-miss page r.fresh r.tok current miss, served)
        (served_once page t current rs (AllFresh-tail current r rs f))
  | inl hit ↦
      rw (report_handler-hit page r.fresh r.tok current hit, served)
        (elim (Bool-cases (equal r.tok t)) [
          | inr other ↦ rw other (served_once page t r.fresh rs f.2)
          | inl same ↦
              let here = (equal_iff current r.tok).0 hit ∙ (equal_iff r.tok t).0 same in
              rw same (
                rw
                  (served_none page t r.fresh rs (λ e. f.0 (e ∙ sym here))
                    (subst (λ x. IsNew x rs) here f.1))
                  (omega arith))
        ])
]
