-- ===== src/Middleware/IpFilter/Decision.antt =====
-- Whom the filter of ip_filter.rs lets through, in terms of the lists as they are configured.
use g2way.Common.{
  ◌≡◌, ◌↔◌, ◌⊎◌, inl, inr, refl, Bool, true, false, ◌||◌, List, [], ◌∷◌, Option, none, some, Text,
  arith, Any, Bool-cases, any, is_empty, Result, ok, err, collect_cons, if◌then◌else◌,
}
use g2way.Middleware.IpFilter.{
  FilterState, parse_ip_entry, entry_or_err, parse_list, parse_lists, from_config, permits, call,
}

module _ {Net Ip : Type 0} (net_from_str : Text → Option Net) (ip_from_str : Text → Option Ip)
    (net_from : Ip → Net) (contains : Net → Ip → Bool) where
  -- An entry is a network that contains the address, or else an address whose network does.
  abbrev pub Names : Text → Ip → Type 0
  Names entry ip =
      ((net : Net) × (net_from_str entry ≡ some net) × (contains net ip ≡ true))
      ⊎ ((host : Ip) × (net_from_str entry ≡ none)
          × (ip_from_str entry ≡ some host)
          × (contains (net_from host) ip ≡ true))

  abbrev read_entry : Text → Result Net Text
  read_entry entry =
      entry_or_err net_from_str ip_from_str net_from entry
        (parse_ip_entry net_from_str ip_from_str net_from entry)

  read_entry_iff :
      (entry : Text) (net : Net) (ip : Ip)
      → read_entry entry ≡ ok net
      → (contains net ip ≡ true) ↔ Names entry ip
  unfolding parse_ip_entry
  read_entry_iff entry net ip e = go (net_from_str entry) (ip_from_str entry) refl refl
    where
      go :
          (n : Option Net) (i : Option Ip)
          → net_from_str entry ≡ n
          → ip_from_str entry ≡ i
          → (contains net ip ≡ true) ↔ Names entry ip
      go (some m) i a b =
          let same : m ≡ net = ground arith in ((λ h. inl (m, a, ground arith)), λ h. ground arith)
      go none (some host) a b =
          let same : net_from host ≡ net = ground arith in
          ((λ h. inr (host, a, b, ground arith)), λ h. ground arith)
      go none none a b = ground arith

  parse_list_iff :
      (entries : List Text) (nets : List Net) (ip : Ip)
      → parse_list net_from_str ip_from_str net_from entries ≡ ok nets
      → ((any (λ net. contains net ip) nets ≡ true) ↔ Any (λ entry. Names entry ip) entries)
        × (is_empty nets ≡ is_empty entries)
  unfolding parse_list
  parse_list_iff [] nets ip e =
      let nothing : nets ≡ [] = ground arith in rw nothing (((λ h. cc), λ h. absurd h), refl)
  parse_list_iff (entry ∷ entries) nets ip e =
      let (net, rest, one, more, same) = collect_cons read_entry entry entries nets e in
      let ((to, from), _) = parse_list_iff entries rest ip more in
      let (hit, hit') = read_entry_iff entry net ip one in
      rw same (
        (
          λ h. elim (Bool-cases (contains net ip)) [
            | inl c ↦ inl (hit c)
            | inr c ↦ inr (to (rw c at h))
          ],
          λ h. elim h [ inl x ↦ rw (hit' x) refl | inr x ↦ later _ _ (from x) ],
        ),
        refl,
      )
    where
      later : (a b : Bool) → b ≡ true → (a || b) ≡ true
      later a b h = ground arith

  from_config_parts :
      (allow block : List Text) (state : FilterState Net)
      → from_config net_from_str ip_from_str net_from allow block ≡ ok (some state)
      → (parse_list net_from_str ip_from_str net_from allow ≡ ok state.allow)
        × (parse_list net_from_str ip_from_str net_from block ≡ ok state.block)
  unfolding from_config parse_lists
  from_config_parts allow block state e =
      go (parse_list net_from_str ip_from_str net_from allow)
        (parse_list net_from_str ip_from_str net_from block) refl refl
    where
      go :
          (a b : Result (List Net) Text)
          → parse_list net_from_str ip_from_str net_from allow ≡ a
          → parse_list net_from_str ip_from_str net_from block ≡ b
          → (parse_list net_from_str ip_from_str net_from allow ≡ ok state.allow)
            × (parse_list net_from_str ip_from_str net_from block ≡ ok state.block)
      go (err x) b e1 e2 = ground arith
      go (ok a) (err x) e1 e2 = ground arith
      go (ok a) (ok b) e1 e2 = ground arith

permits_lem :
    {A B : Type 0} (a b none_allowed : Bool)
    → (a ≡ true) ↔ A
    → (b ≡ true) ↔ B
    → ((if b then false else none_allowed || a) ≡ true) ↔ (¬ B × ((none_allowed ≡ true) ⊎ A))
permits_lem a b none_allowed p q = ground arith

-- A filter that is configured lets a request through exactly when its client address is known and,
-- in canonical form, is named by no block entry and by some allow entry if there are any.
pub from_config-call_permits :
    {Net Ip : Type 0} (net_from_str : Text → Option Net) (ip_from_str : Text → Option Ip)
    (net_from : Ip → Net) (to_canonical : Ip → Ip) (contains : Net → Ip → Bool)
    (allow block : List Text) (state : FilterState Net) (addr : Option Ip)
    → from_config net_from_str ip_from_str net_from allow block ≡ ok (some state)
    → let names = λ (ip : Ip) (entry : Text).
      Names net_from_str ip_from_str net_from contains entry (to_canonical ip) in
      (call to_canonical contains state addr ≡ true) ↔ (
        (ip : Ip) × (addr ≡ some ip)
        × ¬ (Any (names ip) block)
        × ((is_empty allow ≡ true) ⊎ Any (names ip) allow))
unfolding call permits
from_config-call_permits net_from_str ip_from_str net_from to_canonical contains allow block state
      none e =
    ((λ h. cc), λ (ip, a, b, c). cc)
from_config-call_permits net_from_str ip_from_str net_from to_canonical contains allow block state
      (some ip) e =
    let (a, b) = from_config_parts net_from_str ip_from_str net_from contains allow block state e in
    let listed = parse_list_iff net_from_str ip_from_str net_from contains in
    let (in_allow, same) = listed allow state.allow (to_canonical ip) a in
    let (in_block, _) = listed block state.block (to_canonical ip) b in
    let (to, from) = permits_lem _ _ (is_empty allow) in_allow in_block in
    (
      λ h. let (free, allowed) = to (rw same at h) in (ip, refl, free, allowed),
      λ (ip', at, not_blocked, allowed).
          let it : ip' ≡ ip = ground arith in
          rw same (from (rw it at not_blocked, rw it at allowed)),
    )
