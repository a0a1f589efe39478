-- ===== src/DnsFilter/Examples.antt =====
-- Runs of the domain filter, and its theorem at a concrete input.
use lias_dis.Prelude.{◌≡◌, ◌≢◌, ◌↔◌, refl, true, [], ◌∷◌, exists}
use lias_dis.Prelude.Text.{to_lower, trim_space, has_prefix, has_suffix}
use lias_dis.DnsFilter.{Engine, FilterAction, should_block, any_blocks, scope_match, domain_match}
use lias_dis.DnsFilter.Blocking.{Blocks, should_block-Blocks}

abbrev filter : Engine
filter = record {
  rules = record { domain = "*.example.com"; action = FilterAction.block; scope = "tag:kids" } ∷ [];
}

should_block-filter : should_block filter " TV.example.com" ("kids" ∷ []) "" ≡ true
unfolding should_block to_lower trim_space any_blocks scope_match domain_match has_prefix has_suffix
    exists
should_block-filter = refl

should_block-Blocks_example : (should_block filter " TV.example.com" ("kids" ∷ []) "" ≡ true) ↔ (
    (to_lower (trim_space " TV.example.com") ≢ "")
    × Blocks (to_lower (trim_space " TV.example.com")) ("kids" ∷ []) "" filter.rules)
should_block-Blocks_example = should_block-Blocks filter " TV.example.com" ("kids" ∷ []) ""
