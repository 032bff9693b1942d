-- ===== src/Web/Page.antt =====
-- `render` of crates/seck-web/src/render.rs. `encode_text` is html_escape's.
use seck.Base.{Bool, true, false, List, [], ◌∷◌, ◌++◌, length, Text}
use seck.Base.Strings.{codes, decimal, flatten}
use seck.Report.{Report, Input, Finding}
use seck.Report.Sanitize.{sanitize}

-- the head of the page
abbrev pub style : Text
style = flatten (
    codes "<!doctype html>\n"
    ∷ codes "<html lang=\"en\"><head>\n"
    ∷ codes "<meta charset=\"utf-8\"><title>seck — report</title>\n"
    ∷ codes "<style>\n"
    ∷ codes
        "  body { font: 14px/1.5 -apple-system, system-ui, sans-serif; max-width: 60rem; margin: 2rem auto; padding: 0 1rem; }\n"
    ∷ codes "  h1 { font-size: 1.4rem; } h2 { font-size: 1.1rem; margin-top: 2rem; }\n"
    ∷ codes
        "  .finding { border: 1px solid #ddd; border-radius: 6px; padding: 1rem; margin: 1rem 0; }\n"
    ∷ codes
        "  .badge { display: inline-block; padding: 2px 8px; border-radius: 999px; font-size: 0.8rem; background: #eee; }\n"
    ∷ codes "  pre { white-space: pre-wrap; background: #f6f6f6; padding: 0.5rem; }\n"
    ∷ codes "  code { font-family: ui-monospace, Menlo, monospace; }\n"
    ∷ codes "</style></head><body>\n"
    ∷ [])

abbrev pub determinism : Bool → Text
determinism true = codes "deterministic"
determinism false = codes "non-deterministic"

module _ (encode_text : Text → Text) where
  abbrev pub safe : Text → Text
  safe s = encode_text (sanitize s)

  abbrev pub top_pieces : Report → List Text
  top_pieces report =
      codes "<h1>seck report — "
      ∷ safe report.invocation.model
      ∷ codes "</h1>\n<p>sandbox: <code>"
      ∷ safe report.invocation.sandbox_mode
      ∷ codes "</code> · backend: <code>"
      ∷ safe report.invocation.backend
      ∷ codes "</code> · "
      ∷ determinism report.invocation.deterministic
      ∷ codes "</p>\n<h2>Inputs ("
      ∷ decimal (length report.inputs)
      ∷ codes ")</h2>\n<ul>"
      ∷ []

  abbrev pub input_pieces : Input → List Text
  input_pieces i =
      codes "<li>"
      ∷ safe i.path
      ∷ codes " <code>"
      ∷ safe i.sha3_256
      ∷ codes "</code> ("
      ∷ decimal i.size
      ∷ codes " bytes)</li>"
      ∷ []

  unfoldable pub render_inputs : List Input → Text
  render_inputs [] = []
  render_inputs (i ∷ is) = flatten (input_pieces i) ++ render_inputs is

  abbrev pub page_finding : Finding → List Text
  page_finding f =
      codes "<div class=\"finding\"><strong>["
      ∷ safe f.id
      ∷ codes "]</strong> "
      ∷ safe f.summary
      ∷ codes "<p><span class=\"badge\">"
      ∷ safe f.category
      ∷ codes "</span> <span class=\"badge\">"
      ∷ safe f.confidence
      ∷ codes "</span></p><pre>"
      ∷ safe f.evidence_quote
      ∷ codes "</pre></div>"
      ∷ []

  unfoldable pub page_findings : List Finding → Text
  page_findings [] = []
  page_findings (f ∷ fs) = flatten (page_finding f) ++ page_findings fs

  unfoldable pub render : Report → Text
  unfolding render_inputs page_findings
  render report =
      style
      ++ flatten (top_pieces report)
      ++ render_inputs report.inputs
      ++ codes "</ul>\n<h2>Findings</h2>\n"
      ++ page_findings report.findings
      ++ codes "</body></html>\n"
