-- ===== src/Middleware/Versions/Dispatched.antt =====
-- Where versioning.rs sends a request, by the configuration of the API.
use g2way.Common.{
  ◌≡◌, refl, sym, subst, ◌∙◌, inl, inr, ℕ, List, [], ◌∷◌, Option, none, some, Text, codes, text_eq,
  text_eq_iff, if◌then◌else◌, ok, ok_or, ok_or_ok, >>=-ok, ok_injective, lookup, insert, remove,
  lookup-insert, lookup-remove, IsMap, lookup_of_IsAbsent, Bool-cases,
}
use g2way.Core.Session.{reached}
use g2way.Middleware.Versions.{
  VersioningConfig, VersionSlot, VersionDispatch, VersionRequest, no_chain, take_chains,
  selector_name, from_config, Dispatch, rejected, goes_to, or_default, in_slot, by_name, call,
}
use g2way.Middleware.Versions.Asked.{asked, requested-asked}

module _ {Chain : Type 0} where
  -- The slot of a version: its own expiry with its own chain, or else what was there.
  abbrev pub IsSlotOf :
      Option (Option ℕ)
      → Option Chain
      → Option (VersionSlot Chain)
      → Option (VersionSlot Chain)
      → Type 0
  IsSlotOf none own old new = new ≡ old
  IsSlotOf (some expires_at) own old new =
      (chain : Chain) × (own ≡ some chain)
      × (new ≡ some (record { chain = chain; expires_at = expires_at }))

  -- The chain of another version stays in the map.
  IsSlotOf-other :
      (expires : Option (Option ℕ)) (own own' : Option Chain)
      (old old' new : Option (VersionSlot Chain))
      → own' ≡ own
      → old' ≡ old
      → IsSlotOf expires own' old' new
      → IsSlotOf expires own old new
  IsSlotOf-other none own own' old old' new a b h = h ∙ b
  IsSlotOf-other (some expires_at) own own' old old' new a b (chain, has, is) =
      (chain, sym a ∙ has, is)

  take_chains-IsSlotOf :
      (name : Text) (versions : List (Text × Option ℕ)) (chains : List (Text × Chain))
      (old slots : List (Text × VersionSlot Chain))
      → IsMap versions
      → take_chains versions chains old ≡ ok slots
      → IsSlotOf (lookup name versions) (lookup name chains) (lookup name old) (lookup name slots)
  unfolding take_chains lookup
  take_chains-IsSlotOf name [] chains old slots m h =
      let e : old ≡ slots = ok_injective h in rw e refl
  take_chains-IsSlotOf name ((n, expires_at) ∷ versions) chains old slots (absent, m) h =
      let (chain, found, rest) = >>=-ok (ok_or (lookup n chains) (no_chain n)) _ slots h in
      let slot : VersionSlot Chain = record { chain = chain; expires_at = expires_at } in
      let ih =
        take_chains-IsSlotOf name versions (remove n chains) (insert n slot old) slots m rest in
      let put = lookup-insert n name slot old in
      let gone = lookup-remove n name chains in
      let has = ok_or_ok (lookup n chains) (no_chain n) chain found in
      elim (Bool-cases (text_eq n name)) [
        | inl own ↦
            let same = (text_eq_iff n name).0 own in
            let unlisted =
              subst (λ k. lookup k versions ≡ none) same (lookup_of_IsAbsent n versions absent) in
            let here = subst (λ k. lookup k chains ≡ some chain) same has in
            let new = rw (unlisted, put, own) at ih in rw own (chain, here, new)
        | inr other ↦ rw other (
            IsSlotOf-other (lookup name versions) (lookup name chains) _ (lookup name old) _
              (lookup name slots) (rw other at gone) (rw other at put) ih)
      ]

  abbrev pub IsListed : ℕ → Option (Option ℕ) → Option Chain → Dispatch Chain → Type 0
  IsListed now none own d = d ≡ rejected (codes "requested API version does not exist")
  IsListed now (some expires_at) own d =
      (chain : Chain) × (own ≡ some chain)
      × (d ≡ (
          if reached expires_at now
          then rejected (codes "requested API version has expired")
          else goes_to chain))

  -- What a request to a named version gets, by the expiry that the API configures for it.
  abbrev pub IsDispatchedTo :
      ℕ → Option Text → List (Text × Option ℕ) → List (Text × Chain) → Dispatch Chain → Type 0
  IsDispatchedTo now none versions chains d = d ≡ rejected (codes "version information not found")
  IsDispatchedTo now (some name) versions chains d =
      IsListed now (lookup name versions) (lookup name chains) d

  in_slot-IsListed :
      (to_str : Text → Option Text) (now : ℕ) (expires : Option (Option ℕ)) (own : Option Chain)
      (found : Option (VersionSlot Chain))
      → IsSlotOf expires own none found
      → IsListed now expires own (in_slot to_str now found)
  in_slot-IsListed to_str now none own found h = rw h refl
  in_slot-IsListed to_str now (some expires_at) own found (chain, has, is) =
      (chain, has, rw is refl)

  by_name-IsDispatchedTo :
      (to_str : Text → Option Text) (now : ℕ) (wanted : Option Text)
      (versions : List (Text × Option ℕ)) (chains : List (Text × Chain))
      (slots : List (Text × VersionSlot Chain))
      → IsMap versions
      → take_chains versions chains [] ≡ ok slots
      → IsDispatchedTo now wanted versions chains (by_name to_str now slots wanted)
  unfolding lookup
  by_name-IsDispatchedTo to_str now none versions chains slots m h = refl
  by_name-IsDispatchedTo to_str now (some name) versions chains slots m h =
      in_slot-IsListed to_str now (lookup name versions) (lookup name chains) (lookup name slots)
        (take_chains-IsSlotOf name versions chains [] slots m h)

  -- A dispatcher that was built for an API sends a request by the version that it names in the
  -- header or the query parameter that the API configures, by the first value there, without the
  -- white space around it, or else by the default version: a request without either, or of a
  -- version that is not configured, is rejected, and a configured version has a chain of its own,
  -- which gets the request unless the version's expiry is reached. The versions of the API are
  -- distinct.
  pub call-IsDispatchedTo :
      (to_str header_name : Text → Option Text) (config : VersioningConfig)
      (chains : List (Text × Chain)) (d : VersionDispatch Chain) (now : ℕ) (req : VersionRequest)
      → IsMap config.versions
      → from_config header_name config chains ≡ ok d
      → IsDispatchedTo now
          (or_default (asked to_str header_name config req) config.default_version)
          config.versions
          chains
          (call to_str d now req)
  unfolding from_config call
  call-IsDispatchedTo to_str header_name config chains d now req m h =
      let (name, named, built) =
        >>=-ok (selector_name header_name config.location config.key) _ d h in
      let (slots, taken, is) = >>=-ok (take_chains config.versions chains []) _ d built in
      let wanted = or_default (asked to_str header_name config req) config.default_version in
      let asks = requested-asked to_str header_name config name req named in
      subst
        (λ (x : VersionDispatch Chain).
          IsDispatchedTo now wanted config.versions chains (call to_str x now req))
        (ok_injective is)
        (subst
          (λ o.
            IsDispatchedTo now wanted config.versions chains
              (by_name to_str now slots (or_default o config.default_version)))
          (sym asks)
          (by_name-IsDispatchedTo to_str now wanted config.versions chains slots m taken))
