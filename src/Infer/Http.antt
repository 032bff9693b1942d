-- ===== src/Infer/Http.antt =====
-- The head of a request and of a response is parted from the body where it was put together.
use seck.Base.{
  ℕ, zero, suc, ◌+◌, ◌%◌, ◌/◌, ◌≡◌, refl, sym, ap, ◌∙◌, arith, Bool, true, false, not, ◌&&◌,
  Bool-cases, inl, inr, some, List, [], ◌∷◌, ◌++◌, append_assoc, ltb, ◌==◌, length, All, Bytes,
  Text,
}
use seck.Base.Strings.{codes, decimal, decimal_loop, strip_prefix, after_first}
use seck.Infer.Ollama.{blank_line, until, head_of}

abbrev pub HasNoReturn : Text → Type 0
HasNoReturn s = All (λ c. (c == b'\r') ≡ false) s

-- The lines of a head, each with its end.
abbrev pub head_text : List Text → Text
head_text [] = []
head_text (l ∷ ls) = l ++ (codes "\r\n" ++ head_text ls)

-- Neither empty nor with a break in it.
pub record IsHeader (l : Text) : Type 0 where
  pub no_return : HasNoReturn l
  pub not_empty : length l ≡ 0 → ⊥

after_first-skip :
    (c : ℕ) (s : Text)
    → (c == b'\r') ≡ false
    → after_first blank_line (c ∷ s) ≡ after_first blank_line s
unfolding after_first strip_prefix
after_first-skip c s h = ground (arith, h)

after_first-HasNoReturn :
    (l s : Text) → HasNoReturn l → after_first blank_line (l ++ s) ≡ after_first blank_line s
after_first-HasNoReturn [] s h = refl
after_first-HasNoReturn (c ∷ l) s h =
    after_first-skip c (l ++ s) h.0 ∙ after_first-HasNoReturn l s h.1

-- Behind the end of a line comes another line.
after_first-line :
    (l s : Text)
    → IsHeader l
    → after_first blank_line (codes "\r\n" ++ (l ++ s)) ≡ after_first blank_line (l ++ s)
unfolding after_first strip_prefix
after_first-line [] s h = absurd (h.not_empty refl)
after_first-line (c ∷ l) s h = ground (arith, h.no_return.0)

after_first-blank : (body : Text) → after_first blank_line (codes "\r\n\r\n" ++ body) ≡ some body
unfolding after_first strip_prefix
after_first-blank body = refl

-- What stands behind the head.
pub after_first-head :
    (l : Text) (ls : List Text) (body : Text)
    → IsHeader l
    → All IsHeader ls
    → after_first blank_line (head_text (l ∷ ls) ++ (codes "\r\n" ++ body)) ≡ some body
after_first-head l [] body h hs =
    rw append_assoc (after_first-HasNoReturn l (codes "\r\n\r\n" ++ body) h.no_return)
    ∙ after_first-blank body
after_first-head l (m ∷ ls) body h hs =
    ap (after_first blank_line)
      (append_assoc l (codes "\r\n" ++ head_text (m ∷ ls)) (codes "\r\n" ++ body))
    ∙ after_first-HasNoReturn l _ h.no_return
    ∙ ap (λ t. after_first blank_line (codes "\r\n" ++ t))
        (append_assoc m (codes "\r\n" ++ head_text ls) (codes "\r\n" ++ body))
    ∙ after_first-line m _ hs.0
    ∙ ap (after_first blank_line)
        (sym (append_assoc m (codes "\r\n" ++ head_text ls) (codes "\r\n" ++ body)))
    ∙ after_first-head m ls body hs.0 hs.1

pub until-HasNoReturn : (s : Text) → HasNoReturn s → until blank_line s ≡ s
unfolding until strip_prefix
until-HasNoReturn [] h = refl
until-HasNoReturn (c ∷ s) h = ground (arith, h.0, until-HasNoReturn s h.1)

HasNoReturn-decimal_loop :
    (fuel n : ℕ) (acc : Text) → HasNoReturn acc → HasNoReturn (decimal_loop fuel n acc)
unfolding decimal_loop
HasNoReturn-decimal_loop zero n acc h = h
HasNoReturn-decimal_loop (suc fuel) n acc h =
    let digit : ((b'0' + n % 10) == b'\r') ≡ false = ground arith in
    elim (Bool-cases (ltb n 10)) [
      | inl last ↦ rw last (digit, h)
      | inr more ↦
          rw more (HasNoReturn-decimal_loop fuel (n / 10) ((b'0' + n % 10) ∷ acc) (digit, h))
    ]

HasNoReturn-decimal : (n : ℕ) → HasNoReturn (decimal n)
unfolding decimal
HasNoReturn-decimal n = HasNoReturn-decimal_loop (n + 1) n [] tt

-- The lines of a request with a body of `n` bytes.
abbrev request_line : Text
request_line = codes "POST /api/generate HTTP/1.1"

abbrev request_fields : ℕ → List Text
request_fields n =
    codes "Host: ollama"
    ∷ codes "Content-Type: application/json"
    ∷ (codes "Content-Length: " ++ decimal n)
    ∷ codes "Connection: close"
    ∷ []

head_of_lem :
    (body : Bytes)
    → head_of body ++ body
      ≡ head_text (request_line ∷ request_fields (length body)) ++ (codes "\r\n" ++ body)
unfolding head_of
head_of_lem body =
    rw (append_assoc (decimal (length body)), append_assoc (decimal (length body))) refl

unfoldable pub lacks_return : Text → Bool
lacks_return [] = true
lacks_return (c ∷ s) = not (c == b'\r') && lacks_return s

HasNoReturn-of : (s : Text) → lacks_return s ≡ true → HasNoReturn s
unfolding lacks_return
HasNoReturn-of [] h = tt
HasNoReturn-of (c ∷ s) h = (ground (arith, h), HasNoReturn-of s (ground (arith, h)))

header : (c : ℕ) (l : Text) → HasNoReturn (c ∷ l) → IsHeader (c ∷ l)
header c l h = record { no_return = h; not_empty = λ e. omega arith }

pub literal : (c : ℕ) (l : Text) → lacks_return (c ∷ l) ≡ true → IsHeader (c ∷ l)
literal c l h = header c l (HasNoReturn-of (c ∷ l) h)

HasNoReturn-append : (s t : Text) → HasNoReturn s → HasNoReturn t → HasNoReturn (s ++ t)
HasNoReturn-append [] t h k = k
HasNoReturn-append (c ∷ s) t h k = (h.0, HasNoReturn-append s t h.1 k)

pub content_length-IsHeader : (n : ℕ) → IsHeader (codes "Content-Length: " ++ decimal n)
unfolding lacks_return
content_length-IsHeader n = header _ _ (
    HasNoReturn-append (codes "Content-Length: ") (decimal n)
      (HasNoReturn-of (codes "Content-Length: ") refl) (HasNoReturn-decimal n))

request_fields-IsHeader : (n : ℕ) → All IsHeader (request_fields n)
unfolding lacks_return
request_fields-IsHeader n =
    (literal _ _ refl, (literal _ _ refl, (content_length-IsHeader n, (literal _ _ refl, tt))))

-- A server that parts a request at its blank line finds the whole body behind it.
pub after_first-request : (body : Bytes) → after_first blank_line (head_of body ++ body) ≡ some body
unfolding lacks_return
after_first-request body =
    ap (after_first blank_line) (head_of_lem body)
    ∙ after_first-head request_line (request_fields (length body)) body (literal _ _ refl)
        (request_fields-IsHeader (length body))
