-- ===== src/System/Widening.antt =====
-- What the network can make of a connection: nothing wider, however envelopes and waits interleave.
use pinch.Prelude.Act.{Act, throw, ◌>>=◌, Result-cases}
use pinch.Prelude.{
  ℕ, String, ◌≡◌, ◌⊎◌, inl, inr, refl, subst, ◌∙◌, none, some, ◌==◌, eq_iff, arith, Bool-cases,
  Option-cases,
}
use pinch.Prelude.Objects.{lookup-insert}
use pinch.Manifest.{default_permissions_manifest}
use pinch.Connections.{
  full_manual, Connection, NewConnection, new_connection, Updates, assign, ConnectionStore, save,
  put, too_long, get_connection, add_connection, update_connection,
}
use pinch.Connections.Writes.{update_missing, get_connection-update, get_connection-save}
use pinch.World.{World}

-- As a new connection comes: nothing goes past the human.
abbrev pub IsFresh : Connection → Type 0
IsFresh c =
    (c.autonomy_level ≡ full_manual)
    × (c.permissions_manifest ≡ some default_permissions_manifest)
    × (c.auto_respond_policy ≡ none)

-- The same permissions and policy, with the same level or full manual.
abbrev pub IsNarrower : Connection → Connection → Type 0
IsNarrower c c' =
    ((c'.autonomy_level ≡ c.autonomy_level) ⊎ (c'.autonomy_level ≡ full_manual))
    × (c'.permissions_manifest ≡ c.permissions_manifest)
    × (c'.auto_respond_policy ≡ c.auto_respond_policy)

abbrev pub Narrows : ConnectionStore → ConnectionStore → Type 0
Narrows s s' =
    (addr : String) (c' : Connection)
    → get_connection addr s' ≡ some c'
    → IsFresh c' ⊎ ((c : Connection) × (get_connection addr s ≡ some c) × IsNarrower c c')

pub Narrows-same : (s s' : ConnectionStore) → s' ≡ s → Narrows s s'
Narrows-same s s' e addr c h = inr (c, rw (← e) h, (inl refl, refl, refl))

narrower-IsFresh : (c c' : Connection) → IsFresh c → IsNarrower c c' → IsFresh c'
narrower-IsFresh c c' (l, m, p) (inl a, b, d) = (a ∙ l, b ∙ m, d ∙ p)
narrower-IsFresh c c' (l, m, p) (inr a, b, d) = (a, b ∙ m, d ∙ p)

IsNarrower-twice : (a b c : Connection) → IsNarrower a b → IsNarrower b c → IsNarrower a c
IsNarrower-twice a b c (l, m, p) (inr k, n, q) = (inr k, n ∙ m, q ∙ p)
IsNarrower-twice a b c (inl l, m, p) (inl k, n, q) = (inl (k ∙ l), n ∙ m, q ∙ p)
IsNarrower-twice a b c (inr l, m, p) (inl k, n, q) = (inr (k ∙ l), n ∙ m, q ∙ p)

pub Narrows-trans : (r s t : ConnectionStore) → Narrows r s → Narrows s t → Narrows r t
Narrows-trans r s t f g addr c h = elim (g addr c h) [
  | inl fresh ↦ inl fresh
  | inr (b, e, n) ↦ elim (f addr b e) [
    | inl fresh ↦ inl (narrower-IsFresh b c fresh n)
    | inr (a, d, m) ↦ inr (a, d, IsNarrower-twice a b c m n)
  ]
]

-- Updates that touch no permissions and no policy, and set no other level than full manual.
abbrev pub IsTightening : Updates → Type 0
IsTightening u =
    ((u.autonomy_level ≡ none) ⊎ (u.autonomy_level ≡ some full_manual))
    × (u.permissions_manifest ≡ none)
    × (u.auto_respond_policy ≡ none)

assign-IsNarrower :
    (now : ℕ) (u : Updates) (c : Connection) → IsTightening u → IsNarrower c (assign now u c)
assign-IsNarrower now u c (inl l, m, p) = (inl (ground arith), ground arith, ground arith)
assign-IsNarrower now u c (inr l, m, p) = (inr (ground arith), ground arith, ground arith)

pub update-Narrows :
    (now : ℕ) (addr : String) (u : Updates) (s : ConnectionStore)
    → IsTightening u
    → Narrows s (update_connection now addr u s).0
update-Narrows now addr u s tight j c' h = elim (Option-cases (get_connection addr s)) [
  | inl n ↦ inr (c', ground (arith, update_missing now addr u s n), (inl refl, refl, refl))
  | inr (c, e) ↦ elim (Bool-cases (addr == j)) [
    | inl y ↦
        let same : assign now u c ≡ c' = ground (arith, get_connection-update now addr u s c j e) in
        inr (
          c,
          ground (arith, eq_iff addr j),
          subst (IsNarrower c) same (assign-IsNarrower now u c tight),
        )
    | inr n ↦
        inr (c', ground (arith, get_connection-update now addr u s c j e), (inl refl, refl, refl))
  ]
]

pub add-Narrows :
    (now : ℕ) (conn : NewConnection) (s : ConnectionStore)
    → conn.autonomy_level ≡ some full_manual
    → conn.permissions_manifest ≡ none
    → Narrows s (add_connection now conn s).0
unfolding add_connection put get_connection
add-Narrows now conn s l m j c' h = elim (Bool-cases (too_long conn.short_message)) [
  | inl y ↦ inr (c', ground arith, (inl refl, refl, refl))
  | inr n ↦ elim (Bool-cases (conn.peer_address == j)) [
    | inl y ↦
        let same : new_connection now conn ≡ c' =
          ground
            (arith, lookup-insert conn.peer_address j (new_connection now conn) s.connections) in
        inl (subst IsFresh same (ground arith, ground arith, refl))
    | inr k ↦ inr (
      c',
      ground (arith, lookup-insert conn.peer_address j (new_connection now conn) s.connections),
      (inl refl, refl, refl),
    )
  ]
]

pub save-Narrows : (s : ConnectionStore) → Narrows s (save s)
save-Narrows s j c h = inr (c, ground (arith, get_connection-save j s), (inl refl, refl, refl))

-- An action that widens nothing, whatever it returns.
abbrev pub Tightens : {A : Type 0} → Act World A → Type 0
Tightens m = (w : World) → Narrows w.store (m w).0.store

module _ {A B : Type 0} where
  pub Tightens-bind :
      (m : Act World A) (f : A → Act World B)
      → Tightens m
      → ((a : A) → Tightens (f a))
      → Tightens (m >>= f)
  Tightens-bind m f hm hf w = elim (Result-cases (m w).1) [
    | inl (a, e) ↦
        let same : (m >>= f) w ≡ f a (m w).0 = ground arith in
        rw same (Narrows-trans w.store (m w).0.store (f a (m w).0).0.store (hm w) (hf a (m w).0))
    | inr (x, e) ↦ let same : (m >>= f) w ≡ ((m w).0, throw x) = ground arith in rw same (hm w)
  ]
