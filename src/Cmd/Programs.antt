-- ===== src/Cmd/Programs.antt =====
-- What the three clients under cmd/ share: how a run ends, and the short names of enums.
use proto_ip.Prelude.{List, Result, err, ok}
use proto_ip.Cmd.Arguments.{Stop, fatal}
use proto_ip.Golang.Text.{Text, to_lower, trim_prefix}

-- The end of a run: the lines on standard output; the usage or an unknown subcommand, with exit
-- status 2; or a stop.
pub data Outcome : Type 0 where
  printed : List Text → Outcome
  usage : Outcome
  unknown_subcommand : Text → Outcome
  stopped : Stop → Outcome

-- shortEnum; the names are ASCII, so the lower case of other characters does not matter.
unfoldable pub short_enum : Text → Text → Text
short_enum s prefix = to_lower (λ x. x) (trim_prefix s prefix)

-- A request with a parsed argument, then the lines of its response, or log.Fatalf.
unfoldable pub asked_for {ℓ κ} :
    {A : Type ℓ} {B : Type κ}
    → Result Stop A
    → (A → Result Text B)
    → (Text → Text)
    → (B → List Text)
    → Outcome
asked_for (err s) ask failure show = stopped s
asked_for (ok a) ask failure show = elim (ask a) [
  | err e ↦ stopped (fatal (failure e))
  | ok b ↦ printed (show b)
]
