-- ===== src/Firewall.antt =====
-- apps/lias/internal/nftables/builder.go, with the rules and the commit of controller.go. The six
-- maps of the builder are lists of the texts of addresses, by the name of their set in the kernel:
-- a value of such a map is the address of its key. Parsing an address is a parameter, and so are the
-- commit of a netlink transaction (`none` where it fails) and what a rebuilt connection finds in
-- the kernel. The rules are a function on the bytes of a packet that they load.
pub mod Enlisted
pub mod Sets
pub mod Enforced
mod Examples
use lias_dis.Prelude.{
  ℕ, String, Bool, true, false, not, ◌&&◌, ◌||◌, Option, none, some, List, [], ◌∷◌, ◌++◌, ◌==◌,
  str_eq, if◌then◌else◌, exists, select,
}
use lias_dis.Models.{Action, has_tag}
use lias_dis.LocalDevice.{LocalDevice}
use lias_dis.Policy.{Engine, Evaluator, evaluate_action}

pub data SetName : Type 0 where
  allowed_ips blocked_ips allowed_macs blocked_macs allowed_ips_v6 blocked_ips_v6 : SetName

unfoldable pub index : SetName → ℕ
index allowed_ips = 0
index blocked_ips = 1
index allowed_macs = 2
index blocked_macs = 3
index allowed_ips_v6 = 4
index blocked_ips_v6 = 5

abbrev pub Sets : Type 0
Sets = SetName → List String

abbrev pub empty_sets : Sets
empty_sets n = []

unfoldable pub has : String → List String → Bool
has x xs = exists (λ y. str_eq y x) xs

-- m[x] = ...
unfoldable pub add : SetName → String → Sets → Sets
add name x s n = if index n == index name then (if has x (s n) then s n else s n ++ x ∷ []) else s n

-- An address that `net.ParseIP` reads, as the text of its short form.
pub data Ip : Type 0 where
  v4 v6 : String → Ip

pub record Parsers : Type 0 where
  pub parse_ip : String → Option Ip
  pub parse_mac : String → Option String

abbrev pub add_ip : SetName → SetName → Option Ip → Sets → Sets
add_ip four six none s = s
add_ip four six (some (v4 a)) s = add four a s
add_ip four six (some (v6 a)) s = add six a s

abbrev pub add_mac : SetName → Option String → Sets → Sets
add_mac macs none s = s
add_mac macs (some a) s = add macs a s

unfoldable pub add_ips : Parsers → SetName → SetName → List String → Sets → Sets
add_ips parsers four six [] s = s
add_ips parsers four six (t ∷ ts) s =
    add_ips parsers four six ts (add_ip four six (parsers.parse_ip t) s)

unfoldable pub add_macs : Parsers → SetName → List String → Sets → Sets
add_macs parsers macs [] s = s
add_macs parsers macs (t ∷ ts) s = add_macs parsers macs ts (add_mac macs (parsers.parse_mac t) s)

-- What `Sync` does for a device: the action that it is given, and the cases.
pub data Treatment : Type 0 where
  let_in keep_out leave : Treatment

abbrev treat : Bool → Bool → Action → Treatment
treat infra online Action.allow = if not online && not infra then leave else let_in
treat infra online Action.block = keep_out
treat infra online _ = leave

pub treatment : Engine → Evaluator → LocalDevice → Treatment
treatment e ev d =
    let infra = has_tag d.device "infrastructure" in
    treat infra d.device.online (if infra then Action.allow else evaluate_action e (some d) ev)

abbrev pub enlist : Parsers → Treatment → LocalDevice → Sets → Sets
enlist parsers let_in d s =
    add_macs parsers allowed_macs d.device.macs
      (add_ips parsers allowed_ips allowed_ips_v6 d.device.ips s)
enlist parsers keep_out d s =
    add_macs parsers blocked_macs d.device.macs
      (add_ips parsers blocked_ips blocked_ips_v6 d.device.ips s)
enlist parsers leave d s = s

-- The loop over the devices.
unfoldable pub desired : Parsers → Engine → Evaluator → List LocalDevice → Sets → Sets
desired parsers e ev [] s = s
desired parsers e ev (d ∷ ds) s = desired parsers e ev ds (enlist parsers (treatment e ev d) d s)

pub record SetDiff : Type 0 where
  pub to_add : Sets
  pub to_rem : Sets

abbrev pub missing : Sets → Sets → Sets
missing from s n = select (λ x. not (has x (s n))) (from n)

pub diff_sets : Sets → Sets → SetDiff
diff_sets wanted current = record {
  to_add = missing wanted current;
  to_rem = missing current wanted;
}

abbrev pub is_nil : List String → Bool
is_nil [] = true
is_nil (x ∷ xs) = false

abbrev pub no_entry : Sets → Bool
no_entry s =
    is_nil (s allowed_ips)
    && (is_nil (s blocked_ips)
        && (is_nil (s allowed_macs)
            && (is_nil (s blocked_macs)
                && (is_nil (s allowed_ips_v6) && is_nil (s blocked_ips_v6)))))

pub is_unchanged : SetDiff → Bool
is_unchanged diff = no_entry diff.to_add && no_entry diff.to_rem

-- The sets as the builder believes them to be, those that the controller holds, which are missing
-- where setting up the table has failed, and the sets as they are in the kernel.
pub record State : Type 0 where
  pub current : Sets
  pub held : SetName → Bool
  pub kernel : Sets

abbrev pub Flush : Type 0
Flush = SetDiff → Sets → Option Sets

pub reset_state : State → State
reset_state s = record s { current = empty_sets }

-- What `queueElements` adds to the transaction: nothing for a set that is not held.
abbrev pub queued : (SetName → Bool) → SetDiff → SetDiff
queued held diff = record {
  to_add = λ n. if held n then diff.to_add n else [];
  to_rem = λ n. if held n then diff.to_rem n else [];
}

-- What a rebuilt connection holds, and what is then in the kernel.
abbrev pub Rebuild : Type 0
Rebuild = Sets → (SetName → Bool) × Sets

-- `Apply` is the commit, and after a failure the rebuilt connection.
abbrev pub finish : Rebuild → Sets → Option Sets → State → Bool × State
finish rebuild wanted (some k) s = (true, record s { current = wanted; kernel = k })
finish rebuild wanted none s =
    let (held, kernel) = rebuild s.kernel in
    (false, record { current = empty_sets; held = held; kernel = kernel })

pub sync : Parsers → Flush → Rebuild → Engine → Evaluator → List LocalDevice → State → Bool × State
sync parsers flush rebuild e ev ds s =
    let wanted = desired parsers e ev ds empty_sets in
    let diff = diff_sets wanted s.current in
    if is_unchanged diff
    then (true, s)
    else finish rebuild wanted (flush (queued s.held diff) s.kernel) s

-- What the rules load of a packet: the sender's hardware address, the four bytes at offset 12 and
-- the sixteen at offset 8 of the network header, as the addresses that they spell, and whether a
-- LAN subnet matches. No rule looks at the version of the packet.
pub record Packet : Type 0 where
  pub mac : String
  pub bytes_12 : String
  pub bytes_8 : String
  pub in_lan : Bool

pub data Verdict : Type 0 where
  accept drop : Verdict

pub verdict : Sets → Packet → Verdict
verdict s p =
    if p.in_lan
    then accept
    else if has p.mac (s blocked_macs)
    then drop
    else if has p.mac (s allowed_macs)
    then accept
    else if has p.bytes_12 (s blocked_ips)
    then drop
    else if has p.bytes_12 (s allowed_ips)
    then accept
    else if has p.bytes_8 (s blocked_ips_v6)
    then drop
    else accept
