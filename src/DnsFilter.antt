-- ===== src/DnsFilter.antt =====
-- apps/lias/internal/dnsfilter/hooks.go: the domain rules and what they block.
pub mod Blocking
mod Examples
use Prim.Native.String.{[] as empty, ◌∷◌ as ◌∷ₛ◌, ◌++◌ as ◌++ₛ◌}
use lias_dis.Prelude.{
  String, Bool, true, false, ◌&&◌, List, [], ◌∷◌, ◌++◌, str_eq, if◌then◌else◌, exists,
}
use lias_dis.Prelude.Text.{to_lower, trim_space, has_prefix, has_suffix}

pub data FilterAction : Type 0 where
  allow block : FilterAction
  other : String → FilterAction

pub record DomainRule : Type 0 where
  pub domain : String
  pub action : FilterAction
  pub scope : String

pub record Engine : Type 0 where
  pub rules : List DomainRule

pub new_engine : Engine
new_engine = record { rules = [] }

abbrev pub is_block : FilterAction → Bool
is_block FilterAction.block = true
is_block FilterAction.allow = false
is_block (FilterAction.other a) = false

abbrev pub same_rule : DomainRule → DomainRule → Bool
same_rule r s = str_eq r.domain s.domain && str_eq r.scope s.scope

pub upsert : DomainRule → List DomainRule → List DomainRule
upsert rule [] = rule ∷ []
upsert rule (r ∷ rs) = let rest = upsert rule rs in if same_rule r rule then rule ∷ rs else r ∷ rest

upsert_rule : DomainRule → Engine → Engine
upsert_rule rule e = record { rules = upsert rule e.rules }

pub scope_match : String → List String → String → Bool
scope_match scope tags user_id =
    if str_eq scope "global"
    then true
    else if has_prefix scope "tag:"
    then exists (λ t. str_eq ("tag:" ++ₛ t) scope) tags
    else if has_prefix scope "user:"
    then str_eq ("user:" ++ₛ user_id) scope
    else false

-- rule.Domain[1:]
abbrev pub drop_first : String → String
drop_first empty = empty
drop_first (c ∷ₛ s) = s

pub domain_match : String → String → Bool
domain_match domain rule_domain =
    if has_prefix rule_domain "*."
    then has_suffix domain (drop_first rule_domain)
    else str_eq domain rule_domain

pub any_blocks : String → List String → String → List DomainRule → Bool
any_blocks domain tags user_id [] = false
any_blocks domain tags user_id (r ∷ rs) =
    let rest = any_blocks domain tags user_id rs in
    if is_block r.action
    then (if scope_match r.scope tags user_id
        then (if domain_match domain r.domain then true else rest)
        else rest)
    else rest

pub should_block : Engine → String → List String → String → Bool
should_block e domain tags user_id =
    let clean = to_lower (trim_space domain) in
    if str_eq clean "" then false else any_blocks clean tags user_id e.rules
