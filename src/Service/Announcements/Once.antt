-- ===== src/Service/Announcements/Once.antt =====
-- internal/service/clientupdates.go, emitUpdateFailed: a sequence of failures and those emitted.
use emly_updater.Base.{
  ◌≡◌, refl, inl, inr, Bool, true, false, not, ◌&&◌, ◌||◌, List, [], ◌∷◌, all, In, here, there,
  eq_iff, arith, Bool-cases,
}
use emly_updater.Service.Announcements.{
  UpdateFailedKey, same_key, reported, mark_update_failed, emit_update_failed,
}

-- no failure stands twice
abbrev pub distinct : List UpdateFailedKey → Bool
distinct [] = true
distinct (k ∷ ks) = not (reported ks k) && distinct ks

same_key_refl : (k : UpdateFailedKey) → same_key k k ≡ true
same_key_refl k =
    ground (arith, eq_iff k.target k.target, eq_iff k.to_version k.to_version, eq_iff k.code k.code)

same_key-eq : (a b : UpdateFailedKey) → same_key a b ≡ true → a ≡ b
same_key-eq a b h =
    let t : a.target ≡ b.target = (eq_iff a.target b.target).0 (ground arith) in
    let v : a.to_version ≡ b.to_version = (eq_iff a.to_version b.to_version).0 (ground arith) in
    let n : a.attempt ≡ b.attempt = ground arith in
    let c : a.code ≡ b.code = (eq_iff a.code b.code).0 (ground arith) in rw (t, v, n, c) refl

-- A failure that was reported is another than one that was not.
other :
    (keys : List UpdateFailedKey) (j k : UpdateFailedKey)
    → reported keys k ≡ true
    → reported keys j ≡ false
    → same_key j k ≡ false
other keys j k old new = elim (Bool-cases (same_key j k)) [
  | inr e ↦ e
  | inl e ↦
      let same : j ≡ k = same_key-eq j k e in
      let old' : reported keys j ≡ true = rw same old in absurd (ground arith)
]

old_silent :
    (keys ks : List UpdateFailedKey) (k : UpdateFailedKey)
    → reported keys k ≡ true
    → reported (emit_update_failed keys ks) k ≡ false
unfolding emit_update_failed mark_update_failed
old_silent keys [] k h = refl
old_silent keys (j ∷ ks) k h = elim (Bool-cases (reported keys j)) [
  | inl e ↦ rw (e, mark_update_failed) (old_silent keys ks k h)
  | inr e ↦
      rw (e, mark_update_failed)
        (ground (arith, other keys j k h e, old_silent (j ∷ keys) ks k (ground arith)))
]

distinct_emitted : (keys ks : List UpdateFailedKey) → distinct (emit_update_failed keys ks) ≡ true
unfolding emit_update_failed mark_update_failed
distinct_emitted keys [] = refl
distinct_emitted keys (j ∷ ks) = elim (Bool-cases (reported keys j)) [
  | inl e ↦ rw (e, mark_update_failed) (distinct_emitted keys ks)
  | inr e ↦
      rw (e, mark_update_failed)
        (ground (
          arith,
          distinct_emitted (j ∷ keys) ks,
          old_silent (j ∷ keys) ks j (ground (arith, same_key_refl j)),
        ))
]

-- a failure is known from before, or among those emitted
covered :
    (keys ks : List UpdateFailedKey) {k : UpdateFailedKey}
    → In k ks
    → (reported keys k || reported (emit_update_failed keys ks) k) ≡ true
unfolding emit_update_failed mark_update_failed
covered keys [] m = elim m [ ]
covered keys (k ∷ ks) here = elim (Bool-cases (reported keys k)) [
  | inl e ↦ rw (e, mark_update_failed) refl
  | inr e ↦ rw (e, mark_update_failed) (ground (arith, same_key_refl k))
]
covered keys (j ∷ ks) {k} (there m) = elim (Bool-cases (reported keys j)) [
  | inl e ↦ rw (e, mark_update_failed) (covered keys ks m)
  | inr e ↦ rw (e, mark_update_failed) (ground (arith, covered (j ∷ keys) ks m))
]

each_covered :
    (found ks : List UpdateFailedKey)
    → ((k : UpdateFailedKey) → In k ks → reported found k ≡ true)
    → all (reported found) ks ≡ true
each_covered found [] h = refl
each_covered found (k ∷ ks) h =
    ground (arith, h k here, each_covered found ks (λ j m. h j (there m)))

-- Over the life of a process, each failure that occurs is emitted, and none is emitted twice.
pub emit_update_failed_once :
    (ks : List UpdateFailedKey)
    → (distinct (emit_update_failed [] ks) ≡ true)
      × (all (reported (emit_update_failed [] ks)) ks ≡ true)
emit_update_failed_once ks =
    (distinct_emitted [] ks, each_covered (emit_update_failed [] ks) ks (λ k m. covered [] ks m))
