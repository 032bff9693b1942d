-- ===== src/Report/Renderer/Safety.antt =====
-- Which fields of a report can put terminal control characters into the rendered text.
use seck.Base.{
  ℕ, zero, suc, ◌+◌, ◌%◌, ◌/◌, ◌≡◌, refl, arith, true, List, [], ◌∷◌, ltb, Bool-cases, inl, inr,
  length, Text, All, All-append, All-append_left, All-append_right,
}
use seck.Base.Strings.{codes, decimal, decimal_loop, join, flatten}
use seck.Report.{Report, Finding}
use seck.Report.Sanitize.Laws.{IsSafe, sanitize-IsSafe, all_kept, All-IsSafe}
use seck.Report.Renderer.{
  head_pieces, finding_pieces, render_head, render_finding, render_findings, render_terminal,
}

abbrev pub IsSafeText : Text → Type 0
IsSafeText t = All IsSafe t

pub flatten-IsSafeText : (ts : List Text) → All IsSafeText ts → IsSafeText (flatten ts)
flatten-IsSafeText [] h = tt
flatten-IsSafeText (t ∷ ts) (h, hs) = All-append IsSafe t _ h (flatten-IsSafeText ts hs)

pub join-IsSafeText :
    (sep : Text) (ts : List Text) → IsSafeText sep → All IsSafeText ts → IsSafeText (join sep ts)
unfolding join
join-IsSafeText sep [] hsep h = tt
join-IsSafeText sep (t ∷ []) hsep h = h.0
join-IsSafeText sep (t ∷ u ∷ ts) hsep (h, hs) =
    All-append IsSafe t _ h (All-append IsSafe sep _ hsep (join-IsSafeText sep (u ∷ ts) hsep hs))

digit-IsSafe : (d : ℕ) → IsSafe (b'0' + d % 10)
digit-IsSafe d = ground arith

decimal_loop-IsSafeText :
    (fuel n : ℕ) (acc : Text) → IsSafeText acc → IsSafeText (decimal_loop fuel n acc)
unfolding decimal_loop
decimal_loop-IsSafeText zero n acc h = h
decimal_loop-IsSafeText (suc fuel) n acc h = elim (Bool-cases (ltb n 10)) [
  | inl last ↦ rw last (digit-IsSafe n, h)
  | inr more ↦
      rw more (decimal_loop-IsSafeText fuel (n / 10) ((b'0' + n % 10) ∷ acc) (digit-IsSafe n, h))
]

pub decimal-IsSafeText : (n : ℕ) → IsSafeText (decimal n)
unfolding decimal
decimal-IsSafeText n = decimal_loop-IsSafeText (n + 1) n [] tt

-- The fields that the renderer prints as they are.
pub record HasSafeLabels (f : Finding) : Type 0 where
  pub id : IsSafeText f.id
  pub category : IsSafeText f.category
  pub confidence : IsSafeText f.confidence
  pub files : All IsSafeText f.files

safe : (t : Text) → all_kept t ≡ true → IsSafeText t
safe = All-IsSafe

render_finding-IsSafeText : (f : Finding) → HasSafeLabels f → IsSafeText (render_finding f)
unfolding render_finding all_kept
render_finding-IsSafeText f h = flatten-IsSafeText (finding_pieces f) (
  safe (codes "  [") refl,
  (
    h.id,
    (
      safe (codes "] ") refl,
      (
        sanitize-IsSafe f.summary,
        (
          safe (codes " (") refl,
          (
            h.category,
            (
              safe (codes "/") refl,
              (
                h.confidence,
                (
                  safe (codes ")\n    files: ") refl,
                  (
                    join-IsSafeText (codes ", ") f.files (safe (codes ", ") refl) h.files,
                    (
                      safe (codes "\n    quote: ") refl,
                      (sanitize-IsSafe f.evidence_quote, (safe (codes "\n") refl, tt)),
                    ),
                  ),
                ),
              ),
            ),
          ),
        ),
      ),
    ),
  ),
)

render_findings-IsSafeText :
    (fs : List Finding) → All HasSafeLabels fs → IsSafeText (render_findings fs)
unfolding render_findings
render_findings-IsSafeText [] h = tt
render_findings-IsSafeText (f ∷ fs) (h, hs) =
    All-append IsSafe (render_finding f) _ (render_finding-IsSafeText f h)
      (render_findings-IsSafeText fs hs)

pub record HasSafeHead (r : Report) : Type 0 where
  pub version : IsSafeText r.version
  pub sandbox_mode : IsSafeText r.invocation.sandbox_mode
  pub backend : IsSafeText r.invocation.backend

render_head-IsSafeText : (r : Report) → HasSafeHead r → IsSafeText (render_head r)
unfolding render_head all_kept
render_head-IsSafeText r h = flatten-IsSafeText (head_pieces r) (
  safe (codes "seck v") refl,
  (
    h.version,
    (
      safe (codes " — sandbox ") refl,
      (
        h.sandbox_mode,
        (
          safe (codes " — backend ") refl,
          (
            h.backend,
            (
              safe (codes " — model ") refl,
              (
                sanitize-IsSafe r.invocation.model,
                (
                  safe (codes "\ninputs: ") refl,
                  (
                    decimal-IsSafeText (length r.inputs),
                    (safe (codes " files\n\nfindings:\n") refl, tt),
                  ),
                ),
              ),
            ),
          ),
        ),
      ),
    ),
  ),
)

-- The rendered report is safe for a terminal, whatever the summaries, the quotes and the model's
-- name, provided that the fields printed as they are hold no unsafe character: the version, the
-- sandbox mode and the backend, and each finding's id, category, confidence and file names.
pub render_terminal-IsSafeText :
    (r : Report) → HasSafeHead r → All HasSafeLabels r.findings → IsSafeText (render_terminal r)
unfolding render_terminal
render_terminal-IsSafeText r head labels =
    All-append IsSafe (render_head r) _ (render_head-IsSafeText r head)
      (render_findings-IsSafeText r.findings labels)

flatten-All : (ts : List Text) → IsSafeText (flatten ts) → All IsSafeText ts
flatten-All [] h = tt
flatten-All (t ∷ ts) h =
    (All-append_left IsSafe t _ h, flatten-All ts (All-append_right IsSafe t _ h))

join-All : (sep : Text) (ts : List Text) → IsSafeText (join sep ts) → All IsSafeText ts
unfolding join
join-All sep [] h = tt
join-All sep (t ∷ []) h = (h, tt)
join-All sep (t ∷ u ∷ ts) h = (
  All-append_left IsSafe t _ h,
  join-All sep (u ∷ ts) (All-append_right IsSafe sep _ (All-append_right IsSafe t _ h)),
)

HasSafeLabels-of_render : (f : Finding) → IsSafeText (render_finding f) → HasSafeLabels f
unfolding render_finding
HasSafeLabels-of_render f h =
    let p = flatten-All (finding_pieces f) h in
    record {
      id = p.1.0;
      category = p.1.1.1.1.1.0;
      confidence = p.1.1.1.1.1.1.1.0;
      files = join-All (codes ", ") f.files p.1.1.1.1.1.1.1.1.1.0;
    }

All-HasSafeLabels_of_render :
    (fs : List Finding) → IsSafeText (render_findings fs) → All HasSafeLabels fs
unfolding render_findings
All-HasSafeLabels_of_render [] h = tt
All-HasSafeLabels_of_render (f ∷ fs) h = (
  HasSafeLabels-of_render f (All-append_left IsSafe (render_finding f) _ h),
  All-HasSafeLabels_of_render fs (All-append_right IsSafe (render_finding f) _ h),
)

-- The proviso is needed: if the rendered report is safe, then so is every finding's id, category,
-- confidence and file name. An unsafe character in one of them reaches the terminal.
pub HasSafeLabels-of_render_terminal :
    (r : Report) → IsSafeText (render_terminal r) → All HasSafeLabels r.findings
unfolding render_terminal
HasSafeLabels-of_render_terminal r h =
    All-HasSafeLabels_of_render r.findings (All-append_right IsSafe (render_head r) _ h)
