-- ===== src/Bench/Table.antt =====
-- `render_html` of crates/seck-bench/src/render.rs. `encode_text` is html_escape's.
use seck.Base.{◌+◌, ◌*◌, ◌≡◌, refl, ◌∙◌, arith, List, [], ◌∷◌, ◌++◌, length, Text}
use seck.Base.Strings.{codes, decimal, flatten}
use seck.Base.Tags.{tags, tags_all, tags-append, tags-flatten, tags-decimal}
use seck.Bench.Scorer.{AxisScore}

pub record Row : Type 0 where
  pub backend : Text
  pub model : Text
  pub injection : AxisScore
  pub malicious : AxisScore
  pub canary : AxisScore
  pub quality : AxisScore

abbrev pub table_head : Text
table_head = flatten (
    codes "<!doctype html>\n"
    ∷ codes "<html lang=\"en\"><head>\n"
    ∷ codes "<meta charset=\"utf-8\"><title>seck bench</title>\n"
    ∷ codes "<style>\n"
    ∷ codes
        "  body { font: 14px/1.5 system-ui, sans-serif; max-width: 60rem; margin: 2rem auto; padding: 0 1rem; }\n"
    ∷ codes "  table { border-collapse: collapse; width: 100%; }\n"
    ∷ codes "  th, td { border: 1px solid #ccc; padding: 4px 8px; text-align: left; }\n"
    ∷ codes "  th { background: #f6f6f6; }\n"
    ∷ codes "</style></head><body>\n"
    ∷ codes "<h1>seck bench leaderboard</h1>\n"
    ∷ codes
        "<table><tr><th>Backend</th><th>Model</th><th>Injection</th><th>Malicious</th><th>Canary</th><th>Quality</th></tr>\n"
    ∷ [])

abbrev pub score_pieces : AxisScore → List Text → List Text
score_pieces s rest = decimal s.passed ∷ codes " / " ∷ decimal s.total ∷ rest

module _ (encode_text : Text → Text) where
  abbrev pub row_pieces : Row → List Text
  row_pieces r =
      codes "<tr><td>"
      ∷ encode_text r.backend
      ∷ codes "</td><td>"
      ∷ encode_text r.model
      ∷ codes "</td><td>"
      ∷ score_pieces r.injection (
          codes "</td><td>"
          ∷ score_pieces r.malicious (
              codes "</td><td>"
              ∷ score_pieces r.canary
                  (codes "</td><td>" ∷ score_pieces r.quality (codes "</td></tr>" ∷ []))))

  unfoldable pub render_rows : List Row → Text
  render_rows [] = []
  render_rows (r ∷ rows) = flatten (row_pieces r) ++ render_rows rows

  unfoldable pub render_html : List Row → Text
  unfolding render_rows
  render_html rows = table_head ++ (render_rows rows ++ codes "</table></body></html>\n")

module _ (encode_text : Text → Text) (escapes : (s : Text) → tags (encode_text s) ≡ 0) where
  tags-row : (r : Row) → tags (flatten (row_pieces encode_text r)) ≡ 14
  unfolding tags_all tags
  tags-row r =
      tags-flatten (row_pieces encode_text r)
      ∙ omega (
        arith,
        escapes r.backend,
        escapes r.model,
        tags-decimal r.injection.passed,
        tags-decimal r.injection.total,
        tags-decimal r.malicious.passed,
        tags-decimal r.malicious.total,
        tags-decimal r.canary.passed,
        tags-decimal r.canary.total,
        tags-decimal r.quality.passed,
        tags-decimal r.quality.total,
      )

  tags-render_rows : (rows : List Row) → tags (render_rows encode_text rows) ≡ 14 * length rows
  unfolding render_rows tags
  tags-render_rows [] = refl
  tags-render_rows (r ∷ rows) = omega (
    arith,
    tags-append (flatten (row_pieces encode_text r)) (render_rows encode_text rows),
    tags-row r,
    tags-render_rows rows,
  )

  tags-head : tags table_head ≡ 27
  unfolding tags
  tags-head = refl

  tags-foot : tags (codes "</table></body></html>\n") ≡ 3
  unfolding tags
  tags-foot = refl

  -- The table has 30 tags and 14 for each row, whatever the names of backends and models: none of
  -- them can open a tag, if the escaping leaves no `<` in a text.
  pub tags-render_html :
      (rows : List Row) → tags (render_html encode_text rows) ≡ 30 + 14 * length rows
  unfolding render_html
  tags-render_html rows = omega (
    arith,
    tags-append table_head (render_rows encode_text rows ++ codes "</table></body></html>\n"),
    tags-append (render_rows encode_text rows) (codes "</table></body></html>\n"),
    tags-head,
    tags-foot,
    tags-render_rows rows,
  )
