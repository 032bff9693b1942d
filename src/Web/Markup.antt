-- ===== src/Web/Markup.antt =====
-- No text of a report adds markup to the page.
use seck.Base.{
  ◌+◌, ◌*◌, ◌≡◌, refl, ◌∙◌, arith, Bool, true, false, List, [], ◌∷◌, ◌++◌, length, Text,
}
use seck.Base.Strings.{codes, flatten}
use seck.Base.Tags.{tags, tags_all, tags-append, tags-flatten, tags-decimal}
use seck.Report.{Report, Input, Finding}
use seck.Report.Sanitize.{sanitize}
use seck.Web.Page.{
  style, determinism, top_pieces, input_pieces, render_inputs, page_finding, page_findings, render,
}

tags-determinism : (b : Bool) → tags (determinism b) ≡ 0
unfolding tags
tags-determinism true = refl
tags-determinism false = refl

module _ (encode_text : Text → Text) (escapes : (s : Text) → tags (encode_text s) ≡ 0) where
  tags-input : (i : Input) → tags (flatten (input_pieces encode_text i)) ≡ 4
  unfolding tags_all tags
  tags-input i =
      tags-flatten (input_pieces encode_text i)
      ∙ rw (escapes (sanitize i.path), escapes (sanitize i.sha3_256), tags-decimal i.size) refl

  tags-finding : (f : Finding) → tags (flatten (page_finding encode_text f)) ≡ 12
  unfolding tags_all tags
  tags-finding f =
      tags-flatten (page_finding encode_text f)
      ∙ rw
          (
            escapes (sanitize f.id),
            escapes (sanitize f.summary),
            escapes (sanitize f.category),
            escapes (sanitize f.confidence),
            escapes (sanitize f.evidence_quote),
          )
          refl

  tags-top : (r : Report) → tags (flatten (top_pieces encode_text r)) ≡ 11
  unfolding tags_all tags
  tags-top r =
      tags-flatten (top_pieces encode_text r)
      ∙ rw
          (
            escapes (sanitize r.invocation.model),
            escapes (sanitize r.invocation.sandbox_mode),
            escapes (sanitize r.invocation.backend),
            tags-determinism r.invocation.deterministic,
            tags-decimal (length r.inputs),
          )
          refl

  tags-render_inputs : (is : List Input) → tags (render_inputs encode_text is) ≡ 4 * length is
  unfolding render_inputs tags
  tags-render_inputs [] = refl
  tags-render_inputs (i ∷ is) = omega (
    arith,
    tags-append (flatten (input_pieces encode_text i)) (render_inputs encode_text is),
    tags-input i,
    tags-render_inputs is,
  )

  tags-page_findings : (fs : List Finding) → tags (page_findings encode_text fs) ≡ 12 * length fs
  unfolding page_findings tags
  tags-page_findings [] = refl
  tags-page_findings (f ∷ fs) = omega (
    arith,
    tags-append (flatten (page_finding encode_text f)) (page_findings encode_text fs),
    tags-finding f,
    tags-page_findings fs,
  )

  tags-append_six :
      (a b c d e f : Text)
      → tags (a ++ b ++ c ++ d ++ e ++ f) ≡ tags a + tags b + tags c + tags d + tags e + tags f
  tags-append_six a b c d e f = omega (
    arith,
    tags-append a b,
    tags-append (a ++ b) c,
    tags-append (a ++ b ++ c) d,
    tags-append (a ++ b ++ c ++ d) e,
    tags-append (a ++ b ++ c ++ d ++ e) f,
  )

  -- The page has 26 tags, 4 for each input and 12 for each finding, whatever the texts of the
  -- report: none of them can open a tag, if the escaping leaves no `<` in a text.
  pub tags-render :
      (r : Report) → tags (render encode_text r) ≡ 26 + 4 * length r.inputs + 12 * length r.findings
  unfolding render tags
  tags-render r =
      tags-append_six style (flatten (top_pieces encode_text r))
        (render_inputs encode_text r.inputs) (codes "</ul>\n<h2>Findings</h2>\n")
        (page_findings encode_text r.findings) (codes "</body></html>\n")
      ∙ omega (arith, tags-top r, tags-render_inputs r.inputs, tags-page_findings r.findings)
