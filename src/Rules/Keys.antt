-- ===== src/Rules/Keys.antt =====
-- Equality of planned targets, which backend/wiseway/rules.py keeps in a set and in a dict.
use wise_way.Prelude.{◌≡◌, ◌↔◌, true, arith, text_eq_iff}
use wise_way.Rules.Names.{Key}
use wise_way.Rules.Plan.{key_eq}

pub key_eq_iff : (j k : Key) → (key_eq j k ≡ true) ↔ (j ≡ k)
key_eq_iff (a, s) (b, t) = ground (arith, text_eq_iff s t)
