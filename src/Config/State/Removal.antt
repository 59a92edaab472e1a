-- ===== src/Config/State/Removal.antt =====
-- `resolve_peer`: whom a selector stands for.
use mathlib.Core.Bool.{false≢true}
use jj_mesh.Prelude.{
  ok, BTreeMap, get, Sorted, get-Above, eqb, eqb_refl, eqb_sound, Ord, nat_ord, bool_ord, pair_ord,
  list_ord, option_ord, reverse_ord, is_some, any, ◌≡◌, sym, ap, ◌∙◌, ◌≢◌, ◌⊎◌, inl, inr, Bool,
  true, Option, some, List, [], ◌∷◌, arith,
}
use jj_mesh.Config.Name.{Text}
use jj_mesh.Config.Membership.Peers.{peer_name, unwrap_or_empty, peer_register, Peer}
use jj_mesh.Config.Membership.Repos.{repo_register}
use jj_mesh.Config.Machine.{text_eq_sound}
use jj_mesh.Config.Claims.{claims_register}
use jj_mesh.Config.State.Defs.{name_of_peer, paired_name, alive_peers, MeshState}
use jj_mesh.Config.State.Ops.{named, by_endpoint, resolve, resolve_peer}

module _ {E : Type 0} ⦃oe : Ord E⦄ where
  abbrev pub has : E → List E → Bool
  has x = any (λ y. eqb y x)

  -- The endpoints that a selector names are those of the alive peers of that name.
  named_sound :
      (selector : Text) (endpoint : E) (m : BTreeMap E Peer)
      → Sorted m
      → has endpoint (named selector (alive_peers m)) ≡ true
      → name_of_peer (get endpoint m) ≡ some selector
  unfolding alive_peers get
  named_sound selector endpoint [] s h = cc
  named_sound selector endpoint ((k, p) ∷ m) s h = ground (
    arith,
    named_sound selector endpoint m s.1,
    get-Above k m s.0,
    eqb_sound k endpoint,
    text_eq_sound (unwrap_or_empty (peer_name p)) selector,
  )

  named_complete :
      (selector : Text) (endpoint : E) (m : BTreeMap E Peer)
      → name_of_peer (get endpoint m) ≡ some selector
      → has endpoint (named selector (alive_peers m)) ≡ true
  unfolding alive_peers get
  named_complete selector endpoint [] h = cc
  named_complete selector endpoint ((k, p) ∷ m) h =
      ground (arith, named_complete selector endpoint m, eqb_refl ⦃o = list_ord⦄ selector)

  resolve_cases :
      (s : MeshState E) (parsed : Option E) (found : List E) (endpoint : E)
      → resolve s parsed found ≡ ok endpoint
      → (found ≡ endpoint ∷ [])
        ⊎ (found ≡ []) × (parsed ≡ some endpoint) × (is_some (paired_name s endpoint) ≡ true)
  unfolding resolve by_endpoint
  resolve_cases s parsed [] endpoint h = ground arith
  resolve_cases s parsed (x ∷ []) endpoint h = ground arith
  resolve_cases s parsed (x ∷ y ∷ found) endpoint h = cc

  only : (x y : E) → has y (x ∷ []) ≡ true → eqb x y ≡ true
  only x y h = ground arith

  -- A selector resolves to the only alive peer of that name, or, if no alive peer has that name, to
  -- the alive peer whose endpoint id it spells.
  pub resolve_peer_sound :
      (parse : Text → Option E) (s : MeshState E) (selector : Text) (endpoint : E)
      → Sorted s.peers
      → resolve_peer parse s selector ≡ ok endpoint
      → (paired_name s endpoint ≡ some selector)
          × ((other : E) → paired_name s other ≡ some selector → other ≡ endpoint)
        ⊎ ((other : E) → paired_name s other ≢ some selector)
          × (parse selector ≡ some endpoint)
          × (is_some (paired_name s endpoint) ≡ true)
  unfolding resolve_peer
  resolve_peer_sound parse s selector endpoint sorted h =
      elim (resolve_cases s (parse selector) (named selector (alive_peers s.peers)) endpoint h) [
        | inl one ↦ inl (
          named_sound selector endpoint s.peers sorted (rw (one, eqb_refl)),
          λ other named'.
              let m = named_complete selector other s.peers named' in
              sym (eqb_sound endpoint other (only endpoint other (ap (has other) (sym one) ∙ m))),
        )
        | inr spelled ↦ inr (
          λ other named'.
              let m = named_complete selector other s.peers named' in
              false≢true (ap (has other) (sym spelled.0) ∙ m),
          spelled.1,
          spelled.2,
        )
      ]
