-- ===== src/Pair/Runs.antt =====
-- A run of the fingerprint's formatting.
use seck.Base.{◌≡◌, refl, Bytes}
use seck.Base.Strings.{codes}
use seck.Base.Utf8.{is_utf8}
use seck.Pair.Fingerprint.{format_fingerprint}

-- Two groups, the second one short.
abbrev digits : Bytes
digits = codes "0123456789ab"

grouped : format_fingerprint digits ≡ codes "01234567 89ab"
unfolding format_fingerprint is_utf8
grouped = refl
