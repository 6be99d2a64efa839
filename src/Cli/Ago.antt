-- ===== src/Cli/Ago.antt =====
-- pc-service/src/wol_unlock/cli/render.py: how long ago something was.
use pc_helper_ios.Prelude.{
  ℕ, ◌-◌, ◌/◌, Option, none, some, List, [], ◌∷◌, ltb, leb, ◌==◌, if◌then◌else◌, Text, codes,
  text_eq,
}
use pc_helper_ios.Errors.{Result}
use pc_helper_ios.I18n.{Values, translate}
use pc_helper_ios.Unicode.{to_decimal}

-- the first unit that fits, with its key
unfoldable pub unit_for : ℕ → List (ℕ × Text) → ℕ × Text
unit_for delta [] = (1, codes "ago.s")
unit_for delta ((size, key) ∷ units) =
    let rest = unit_for delta units in if leb size delta then (size, key) else rest

abbrev pub units : List (ℕ × Text)
units = (86400, codes "ago.d") ∷ (3600, codes "ago.h") ∷ (60, codes "ago.m") ∷ []

-- the parameter `n`
abbrev pub counted : ℕ → Values
counted n name spec = if text_eq name (codes "n") then some (to_decimal n) else none

abbrev ago_of : (locale : Text) → ℕ → ℕ × Text → Result Text
ago_of locale delta (size, key) = translate locale key (some (counted (delta / size)))

abbrev fmt_since : (locale : Text) (now ts : ℕ) → Result Text
fmt_since locale now ts =
    if ltb now ts
    then translate locale (codes "future") none
    else ago_of locale (now - ts) (unit_for (now - ts) units)

-- `fmt_ago`: a time of 0 is none
unfoldable pub fmt_ago : (locale : Text) (now : ℕ) → (ts : Option ℕ) → Result Text
unfolding unit_for translate
fmt_ago locale now none = translate locale (codes "never") none
fmt_ago locale now (some ts) =
    if ts == 0 then translate locale (codes "never") none else fmt_since locale now ts
