-- ===== src/Cli/PairRun/Runs.antt =====
-- A run of `seck pair`, and its theorem at a concrete input.
use seck.Base.{refl, none, some, List, Text}
use seck.Base.Strings.{codes}
use seck.Web.Bind.{SocketAddr, v4}
use seck.Cli.PairRun.{PairWorld, pair_run, printed}
use seck.Cli.PairRun.Shown.{Shown, bundle_at, pair_run-Shown}

-- A public address is asked for.
abbrev public_addr : SocketAddr
public_addr = record { ip = v4 8 8 8 8; port = 51820 }

abbrev world : PairWorld
world = record {
  host_private = codes "a";
  host_public = codes "b";
  psk = codes "c";
  parse_addr = λ t. some public_addr;
  parse_ip = λ t. none;
  show_ip = λ ip. codes "127.0.0.1";
  seck_pair_lan_ip = none;
  hex_encode = λ b. codes "00112233445566";
  sha3_256 = λ b. b;
  to_string = λ b. b.host_endpoint;
  encode = λ t. some t;
}

abbrev shown : List Text
shown =
    printed (bundle_at world public_addr (v4 127 0 0 1)).host_endpoint
      (bundle_at world public_addr (v4 127 0 0 1))

pair_run-Shown_example : Shown world 51820 shown
unfolding pair_run
pair_run-Shown_example =
    pair_run-Shown world
      (λ b. (
        refl,
        (
          refl,
          (
            refl,
            (
              refl,
              (refl, (refl, (refl, (refl, (refl, (refl, (refl, (refl, (refl, (refl, tt)))))))))),
            ),
          ),
        ),
      ))
      (λ b. (
        refl,
        (
          refl,
          (
            refl,
            (
              refl,
              (refl, (refl, (refl, (refl, (refl, (refl, (refl, (refl, (refl, (refl, tt)))))))))),
            ),
          ),
        ),
      ))
      (codes "8.8.8.8:51820") public_addr shown refl refl
