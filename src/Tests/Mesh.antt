-- ===== src/Tests/Mesh.antt =====
-- The merges at concrete states.
use jj_mesh.Prelude.{
  nat_ord, bool_ord, pair_ord, list_ord, option_ord, reverse_ord, ◌≡◌, refl, arith,
}
use jj_mesh.Config.Membership.Peers.{peer_register}
use jj_mesh.Config.Membership.Repos.{repo_register}
use jj_mesh.Config.Claims.{claims_register}
use jj_mesh.Config.State.Defs.{membership}
use jj_mesh.Config.State.Merge.{merge_membership}
use jj_mesh.Config.State.Gossip.{merge_order, merge_agree}
use jj_mesh.Config.State.WellFormed.{IsWellFormed}
use jj_mesh.Config.State.MergeWellFormed.{merge-IsWellFormed}
use jj_mesh.Config.State.Reachable.{Reach-IsWellFormed}
use jj_mesh.Tests.Data.{
  alice, parse, canonical, with_docs, local_run, with_docs-IsWellFormed, docs_valid, from_bob,
  from_carol, bobs,
}

Reach-IsWellFormed_example : IsWellFormed 1 with_docs
Reach-IsWellFormed_example = Reach-IsWellFormed parse canonical 1 alice local_run

merge_order_example :
    let ab = (merge_membership (merge_membership with_docs from_bob 1).0 from_carol 1).0 in
    let ba = (merge_membership (merge_membership with_docs from_carol 1).0 from_bob 1).0 in
    (ab.peers ≡ ba.peers) × (ab.mesh_repos ≡ ba.mesh_repos)
merge_order_example =
    merge_order with_docs from_bob from_carol 1 (tt, tt) ((refl, tt), (tt, tt))
      ((refl, tt), (tt, tt)) (tt, tt) (tt, tt) (tt, tt) (omega arith) (omega arith)

merge_agree_example :
    (merge_membership with_docs (membership bobs 2) 1).0.mesh_repos
    ≡ (merge_membership bobs (membership with_docs 1) 2).0.mesh_repos
merge_agree_example = merge_agree with_docs bobs 1 2 (tt, tt) tt (docs_valid, tt) tt (omega arith)

merge-IsWellFormed_example : IsWellFormed 1 (merge_membership with_docs from_bob 1).0
merge-IsWellFormed_example = merge-IsWellFormed 1 with_docs from_bob with_docs-IsWellFormed
