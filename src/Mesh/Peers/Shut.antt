-- ===== src/Mesh/Peers/Shut.antt =====
-- Peers that are shut down, and stay so.
use glycoprotein_rs.Mesh.Peers.Invariant.{shutdown_other, shutdown_frame}
use glycoprotein_rs.Prelude.Map.{lookup-insert_self, lookup}
use glycoprotein_rs.Mesh.Peers.{Cell, Peer, shutdown, Inner}
use glycoprotein_rs.Prelude.{
  sym, subst, Bool-cases, ◌==◌, arith, some, false, true, inr, inl, ◌∙◌, refl, ◌≡◌, ◌<◌, ℕ,
  pair_has_eq, list_has_eq, nat_has_eq,
}

-- The writer, the socket and the flag of the peer whose cell that is.
abbrev pub IsShut : ℕ → Inner → Type 0
IsShut handle inner =
    (c : Cell) × (lookup handle inner.cells ≡ some c)
    × (c.closed ≡ true)
    × (c.writer ≡ false)
    × (c.control_open ≡ false)

-- Whose cell is shut stays shut: later handles are greater.
abbrev pub StaysShut : ℕ → Inner → Type 0
StaysShut handle inner = (handle < inner.next_handle) × IsShut handle inner

pub shutdown-StaysShut :
    (p : Peer) (handle : ℕ) (inner : Inner)
    → StaysShut handle inner
    → StaysShut handle (shutdown p inner)
unfolding shutdown
shutdown-StaysShut p handle inner (h, (c, found, closed, writer, control)) =
    elim (Bool-cases (p.handle == handle)) [
      | inl e ↦
          let same : shutdown p inner ≡ inner =
            ground (arith, found, closed, nat_has_eq.beq_iff p.handle handle) in
          subst (StaysShut handle) (sym same) (h, (c, found, closed, writer, control))
      | inr e ↦ (
        rw (shutdown_frame p inner).4 h,
        (c, shutdown_other p inner handle (ground arith) ∙ found, closed, writer, control),
      )
    ]

-- A cell whose flag is not set, or that is shut
abbrev pub IsSound : ℕ → Inner → Type 0
IsSound handle inner =
    (handle < inner.next_handle)
    × ((c : Cell) × (lookup handle inner.cells ≡ some c)
        × ((c.closed ≡ true) → (c.writer ≡ false) × (c.control_open ≡ false)))

pub shutdown_shuts :
    (p : Peer) (inner : Inner) → IsSound p.handle inner → StaysShut p.handle (shutdown p inner)
unfolding shutdown
shutdown_shuts p inner (h, (c, found, shut)) = elim (Bool-cases c.closed) [
  | inl e ↦
      let (writer, control) = shut e in rw (shutdown, found, e) (h, (c, found, e, writer, control))
  | inr e ↦
      let d = record c { closed = true; writer = false; control_open = false } in
      simp (shutdown, found, e)
        (h, (d, lookup-insert_self p.handle d inner.cells, refl, refl, refl))
]

pub StaysShut-IsSound : (handle : ℕ) (inner : Inner) → StaysShut handle inner → IsSound handle inner
StaysShut-IsSound handle inner (h, (c, found, closed, writer, control)) =
    (h, (c, found, λ e. (writer, control)))

pub shutdown-IsSound :
    (p : Peer) (handle : ℕ) (inner : Inner)
    → IsSound handle inner
    → IsSound handle (shutdown p inner)
shutdown-IsSound p handle inner v = elim (Bool-cases (p.handle == handle)) [
  | inl e ↦
      let same = (nat_has_eq.beq_iff p.handle handle).0 e in
      StaysShut-IsSound handle (shutdown p inner) (
        subst (λ k. StaysShut k (shutdown p inner)) same
          (shutdown_shuts p inner (subst (λ k. IsSound k inner) (sym same) v)))
  | inr e ↦ (
    rw (shutdown_frame p inner).4 v.0,
    (v.1.0, shutdown_other p inner handle (ground arith) ∙ v.1.1, v.1.2),
  )
]
