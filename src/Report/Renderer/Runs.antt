-- ===== src/Report/Renderer/Runs.antt =====
-- Runs of `sanitize` and `render_terminal`, and the theorems of `Report` at concrete inputs.
use seck.Base.{◌≡◌, refl, true, [], ◌∷◌, ◌++◌, All}
use seck.Base.Strings.{codes, decimal, join}
use seck.Report.{Report}
use seck.Report.Sanitize.{esc, sanitize}
use seck.Report.Sanitize.Laws.{IsSafe, all_kept, All-IsSafe, sanitize-IsSafe}
use seck.Report.Renderer.{render_terminal}
use seck.Report.Renderer.Safety.{IsSafeText, HasSafeHead, HasSafeLabels, render_terminal-IsSafeText}

sanitize_colours : sanitize (esc ∷ codes "[31mred" ++ esc ∷ codes "[0m\nok") ≡ codes "red\nok"
unfolding sanitize
sanitize_colours = refl

sanitize_hidden : sanitize (b'a' ∷ 0x200b ∷ 0x202e ∷ 0x07 ∷ b'b' ∷ []) ≡ codes "ab"
unfolding sanitize
sanitize_hidden = refl

sanitize_titles : sanitize (esc ∷ codes "]0;title" ++ esc ∷ codes "\\after") ≡ codes "after"
unfolding sanitize
sanitize_titles = refl

sanitize-IsSafe_example : All IsSafe (sanitize (esc ∷ codes "[31mred"))
sanitize-IsSafe_example = sanitize-IsSafe (esc ∷ codes "[31mred")

abbrev pub sample : Report
sample = record {
  version = codes "0.1.0";
  invocation = record {
    nonce_sha3_256 = [];
    started_at = [];
    finished_at = [];
    sandbox_mode = codes "A";
    backend = codes "stub";
    model = esc ∷ codes "[1mm";
    model_sha3_256 = [];
    temperature = codes "0";
    seed = 42;
    deterministic = true;
  };
  inputs = [];
  findings =
      record {
        id = codes "F1";
        summary = codes "s" ++ esc ∷ codes "[2J";
        files = codes "a.rs" ∷ codes "b.rs" ∷ [];
        category = codes "risk";
        confidence = codes "low";
        evidence_quote = [];
      }
      ∷ [];
  sandbox_attestation = record {
    platform = [];
    sandbox_mode = [];
    profile_sha3_256 = [];
    binary_sha3_256 = [];
  };
}

render_sample :
    render_terminal sample
    ≡ codes
        "seck v0.1.0 — sandbox A — backend stub — model m\ninputs: 0 files\n\nfindings:\n  [F1] s (risk/low)\n    files: a.rs, b.rs\n    quote: \n"
unfolding render_terminal sanitize decimal join
render_sample = refl

sample_head : HasSafeHead sample
unfolding all_kept
sample_head = record {
  version = All-IsSafe (codes "0.1.0") refl;
  sandbox_mode = All-IsSafe (codes "A") refl;
  backend = All-IsSafe (codes "stub") refl;
}

sample_labels : All HasSafeLabels sample.findings
unfolding all_kept
sample_labels = (
  record {
    id = All-IsSafe (codes "F1") refl;
    category = All-IsSafe (codes "risk") refl;
    confidence = All-IsSafe (codes "low") refl;
    files = (All-IsSafe (codes "a.rs") refl, (All-IsSafe (codes "b.rs") refl, tt));
  },
  tt,
)

render_terminal-IsSafeText_example : IsSafeText (render_terminal sample)
render_terminal-IsSafeText_example = render_terminal-IsSafeText sample sample_head sample_labels
