-- ===== src/Aliases/Examples.antt =====
-- Runs of the table of aliases, and the theorem on one of them.
use lias_dis.Prelude.{
  String, ◌≡◌, refl, inl, Bool, true, false, List, [], ◌∷◌, exists, In, subst, sym,
}
use lias_dis.Prelude.Dict.{Dict, lookup}
use lias_dis.Aliases.{
  new_table, Alias, upsert_identity_alias, revoke_identity_alias, find_row, update_where,
  insert_distinct, find_verified_alias_pdids,
}
use lias_dis.Aliases.Owners.{
  Call, upserts, revokes, step, run, AllCareful, run-find_verified_alias_pdids,
}

abbrev alias_of : String → Bool → Alias
alias_of device_id verified = record {
  device_id = device_id;
  alias_type = "mac";
  value_hash = "h";
  source = "controller";
  confidence = 100;
  verified = verified;
  first_seen = 5;
  last_seen = 5;
}

abbrev devices : Dict String
devices = ("a", "pdid_a") ∷ ("b", "pdid_b") ∷ []

abbrev handover : List Call
handover =
    upserts 5 (alias_of "a" true)
    ∷ revokes 6 devices "pdid_a" 1
    ∷ upserts 7 (alias_of "b" true)
    ∷ []

abbrev found_after : List Call → List String
found_after cs = find_verified_alias_pdids devices "mac" "h" (run cs new_table).rows

handover_test : found_after handover ≡ "pdid_b" ∷ []
unfolding run step upsert_identity_alias revoke_identity_alias find_row update_where insert_distinct
    find_verified_alias_pdids new_table lookup exists
handover_test = refl

-- A write that is not verified brings a revoked alias back as a verified one.
revived_test :
    found_after (
      upserts 5 (alias_of "a" true)
      ∷ revokes 6 devices "pdid_a" 1
      ∷ upserts 7 (alias_of "b" true)
      ∷ upserts 8 (alias_of "a" false)
      ∷ [])
    ≡ "pdid_a" ∷ "pdid_b" ∷ []
unfolding run step upsert_identity_alias revoke_identity_alias find_row update_where insert_distinct
    find_verified_alias_pdids new_table lookup exists
revived_test = refl

conflict_test :
    found_after (upserts 5 (alias_of "a" true) ∷ upserts 7 (alias_of "b" true) ∷ []) ≡ "pdid_a" ∷ []
unfolding run step upsert_identity_alias revoke_identity_alias find_row update_where insert_distinct
    find_verified_alias_pdids new_table lookup exists
conflict_test = refl

run-find_verified_alias_pdids_example : ◌≡◌ {A = String} "pdid_b" "pdid_b"
unfolding AllCareful
run-find_verified_alias_pdids_example =
    run-find_verified_alias_pdids handover devices "mac" "h" "pdid_b" "pdid_b"
      (inl refl, (inl refl, tt)) (subst (In "pdid_b") (sym handover_test) (inl refl))
      (subst (In "pdid_b") (sym handover_test) (inl refl))
