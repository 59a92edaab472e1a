-- ===== src/Config/Machine/Laws.antt =====
-- What a rename and an echo of our own record do to the machine's record.
use jj_mesh.Prelude.{
  >>=-eq-ok, ok, eqb_sound, nat_ord, bool_ord, pair_ord, cmp_list, cmp_list_refl, list_ord,
  option_ord, reverse_ord, Bool-cases, ℕ, ◌+◌, ◌-◌, ◌≤◌, ◌<◌, Ordering, min, max, ◌≡◌, refl, sym,
  ap, ◌∙◌, ◌≢◌, ◌⊎◌, inl, inr, true, false, arith,
}
use jj_mesh.Config.Error.{Kind}
use jj_mesh.Config.Name.{Text, is_confusable, validate_name}
use jj_mesh.Config.Membership.Register.{max_record_version, next_version}
use jj_mesh.Config.Membership.Versions.{next_version-eq}
use jj_mesh.Config.Membership.Peers.{
  peer_name, peer_outranks, peer_register, PeerStatus, alive, Peer,
}
use jj_mesh.Config.Membership.Repos.{repo_register}
use jj_mesh.Config.Membership.Ranking.{peer-IsRanked}
use jj_mesh.Config.Machine.Defs.{
  text_eq, rename, own_record, outranking, observe, invalid_hostname, short_hostname, Machine,
}

-- A rename that succeeds gives a valid name; a new name carries a record that outranks the old one.
cmp_refl_text : (s : Text) → cmp_list ⦃o = nat_ord⦄ s s ≡ Ordering.eq
cmp_refl_text s = cmp_list_refl s

pub text_eq_sound : (s t : Text) → text_eq s t ≡ true → s ≡ t
text_eq_sound s t h = eqb_sound ⦃o = list_ord⦄ s t h

renamed_outranks :
    (m : Machine) (name : Text) (w : ℕ)
    → m.version < w
    → peer_outranks (own_record (record { name = name; version = w })) (own_record m) ≡ true
renamed_outranks m name w h =
    peer-IsRanked.versioned (own_record (record { name = name; version = w })) (own_record m) h

pub rename_outranks :
    (m : Machine) (name : Text) {n : Machine}
    → m.version < max_record_version
    → rename m name ≡ ok n
    → (n.name ≡ name)
      × (validate_name Kind.machine name ≡ ok tt)
      × (n.version < max_record_version)
      × ((n ≡ m) ⊎ (peer_outranks (own_record n) (own_record m) ≡ true))
unfolding rename peer_outranks
rename_outranks m name {n} h k =
    let (u, valid, rest) = >>=-eq-ok (validate_name Kind.machine name) _ k in
    elim (Bool-cases (text_eq name m.name)) [
      | inl same ↦
          let e : m ≡ n = ground (arith) in
          (
            sym (ap Machine.name e) ∙ sym (text_eq_sound name m.name same),
            valid,
            rw (← e) h,
            inl (sym e),
          )
      | inr other ↦
          let (w, next, done) = >>=-eq-ok (next_version m.version) _ (rw other at rest) in
          let bounds = next_version-eq m.version w h next in
          let fresh = renamed_outranks m name w (omega arith) in ground arith
    ]

raise : ℕ → ℕ → ℕ
raise v w = min (max v w) (max_record_version - 1)

raise_idem : (v w : ℕ) → raise (raise v w) w ≡ raise v w
unfolding raise
raise_idem v w = omega arith

-- Absorbing a copy twice is absorbing it once.
pub observe_idem : (m : Machine) (copy : Peer) → observe (observe m copy) copy ≡ observe m copy
unfolding observe raise
observe_idem m copy =
    ap (λ v. record m { version = v }) (raise_idem m.version (outranking m copy (peer_name copy)))

settles :
    (m : Machine) (v : ℕ) (s : PeerStatus)
    → v + 1 < max_record_version
    → (v ≤ (observe m (record { version = v; status = s })).version)
      × (s ≢ PeerStatus.removed
          → peer_outranks
              (record { version = v; status = s })
              (own_record (observe m (record { version = v; status = s })))
            ≡ false)
unfolding observe peer_outranks
settles m v PeerStatus.removed h = (omega arith, λ k. absurd (k refl))
settles m v (alive name) h = elim (Bool-cases (text_eq name m.name)) [
  | inl same ↦
      (ground arith, λ k. ground (arith, text_eq_sound name m.name same, cmp_refl_text name))
  | inr other ↦ (ground arith, λ k. ground arith)
]

-- A live copy below the ceiling no longer outranks our own record once it is absorbed, and a
-- tombstone is at least matched in version.
observe_settles :
    (m : Machine) (copy : Peer)
    → copy.version + 1 < max_record_version
    → (copy.version ≤ (observe m copy).version)
      × (copy.status ≢ PeerStatus.removed
          → peer_outranks copy (own_record (observe m copy)) ≡ false)
unfolding observe peer_outranks
observe_settles m copy h = settles m copy.version copy.status h

-- Our version never falls back and never reaches the ceiling.
pub observe_version :
    (m : Machine) (copy : Peer)
    → m.version < max_record_version
    → (m.version ≤ (observe m copy).version)
      × ((observe m copy).version < max_record_version)
      × ((observe m copy).name ≡ m.name)
unfolding observe
observe_version m copy h = (omega arith, omega arith, refl)

invalid_hostname_valid : validate_name Kind.machine invalid_hostname ≡ ok tt
unfolding validate_name is_confusable
invalid_hostname_valid = refl

-- Whatever the host is called, the first name is one that the mesh accepts.
pub short_hostname_valid :
    (hostname : Text) → validate_name Kind.machine (short_hostname hostname) ≡ ok tt
unfolding short_hostname
short_hostname_valid hostname = ground (arith, invalid_hostname_valid)
