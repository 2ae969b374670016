-- ===== src/Origin/Laws.antt =====
-- The laws of src/origin.rs `combine`, and the keys that src/origin.rs `parse` reads back.
use mlai_trade.Common.{◌≡◌, refl, arith}
use mlai_trade.Tax.Positions.{
  ExecutionOrigin, mlai_auto, mlai_cli, provider_external, mixed, unknown, as_str,
}
use mlai_trade.Remote.Text.{bytes}
use mlai_trade.Origin.{parse, combine}

-- Every origin is read back from the key that it is stored under.
pub parse-as_str : (origin : ExecutionOrigin) → parse (bytes (as_str origin)) ≡ origin
unfolding parse
parse-as_str mlai_auto = refl
parse-as_str mlai_cli = refl
parse-as_str provider_external = refl
parse-as_str mixed = refl
parse-as_str unknown = refl

pub combine_comm : (a b : ExecutionOrigin) → combine a b ≡ combine b a
unfolding combine
combine_comm a b = ground arith

pub combine_assoc : (a b c : ExecutionOrigin) → combine (combine a b) c ≡ combine a (combine b c)
unfolding combine
combine_assoc a b c = ground arith
