-- ===== src/Report/Renderer.antt =====
-- `render_terminal` of crates/seck-report/src/renderer.rs.
pub mod Safety
pub mod Runs
use seck.Base.{List, [], ◌∷◌, ◌++◌, length, Text}
use seck.Base.Strings.{codes, decimal, join, flatten}
use seck.Report.{Report, Finding}
use seck.Report.Sanitize.{sanitize}

abbrev pub head_pieces : Report → List Text
head_pieces report =
    codes "seck v"
    ∷ report.version
    ∷ codes " — sandbox "
    ∷ report.invocation.sandbox_mode
    ∷ codes " — backend "
    ∷ report.invocation.backend
    ∷ codes " — model "
    ∷ sanitize report.invocation.model
    ∷ codes "\ninputs: "
    ∷ decimal (length report.inputs)
    ∷ codes " files\n\nfindings:\n"
    ∷ []

unfoldable pub render_head : Report → Text
render_head report = flatten (head_pieces report)

-- the body of the loop
abbrev pub finding_pieces : Finding → List Text
finding_pieces f =
    codes "  ["
    ∷ f.id
    ∷ codes "] "
    ∷ sanitize f.summary
    ∷ codes " ("
    ∷ f.category
    ∷ codes "/"
    ∷ f.confidence
    ∷ codes ")\n    files: "
    ∷ join (codes ", ") f.files
    ∷ codes "\n    quote: "
    ∷ sanitize f.evidence_quote
    ∷ codes "\n"
    ∷ []

unfoldable pub render_finding : Finding → Text
render_finding f = flatten (finding_pieces f)

unfoldable pub render_findings : List Finding → Text
unfolding render_finding
render_findings [] = []
render_findings (f ∷ fs) = render_finding f ++ render_findings fs

unfoldable pub render_terminal : Report → Text
unfolding render_head render_findings
render_terminal report = render_head report ++ render_findings report.findings
