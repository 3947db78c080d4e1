-- ===== src/Tree/Reconcile.antt =====
-- internal/p9fs/tree.go, reconcileConversations: what it leaves of the cache and makes of the children.
use flx.Prelude.{
  ℕ, ◌≡◌, ◌≢◌, ◌⊎◌, refl, ap, ◌∙◌, true, false, List, [], ◌∷◌, ◌++◌, Option, none, some, Bytes,
  ◌==◌, bytes_eq, beq_refl, beq_ne, if◌then◌else◌, bytes_beq_iff, Table, lookup-put_self,
  lookup-put_ne, All, Bool-cases, inl, inr,
}
use mathlib.Core.Path.{subst}
use flx.Prelude.Tables.{lookup}
use flx.Tree.{
  ConversationSpec, Conversation, Reconciliation, new_conversation, update_conversation, place,
  add_found, add_specs, is_active, keep_active, spec_name, spec_names, reconcile_conversations,
}

-- A conversation that was there keeps its directory and its channel.
pub Keeps : Option Conversation → Conversation → Type 0
Keeps none c = Unit
Keeps (some before) c = (c.node ≡ before.node) × (c.peer ≡ before.peer)

-- The conversation that a spec gets.
abbrev pub Placed :
    Table Bytes Bytes → ConversationSpec → Option Conversation → Conversation → Type 0
Placed names spec old c = (c.info ≡ spec.info) × (c.name ≡ spec_name names spec) × Keeps old c

-- A round touches its own identifier and its own name.
found_cache :
    (name : Bytes) (spec : ConversationSpec) (o : Option Conversation) (r : Reconciliation)
    (id : Bytes)
    → spec.id ≢ id
    → lookup id (add_found name spec o r).cache ≡ lookup id r.cache
unfolding add_found place
found_cache name spec none r id ne = lookup-put_ne spec.id id _ r.cache ne
found_cache name spec (some c) r id ne = lookup-put_ne spec.id id _ r.cache ne

found_children :
    (name : Bytes) (spec : ConversationSpec) (o : Option Conversation) (r : Reconciliation)
    (n : Bytes)
    → name ≢ n
    → lookup n (add_found name spec o r).children ≡ lookup n r.children
unfolding add_found place new_conversation update_conversation
found_children name spec none r n ne = lookup-put_ne name n _ r.children ne
found_children name spec (some c) r n ne = lookup-put_ne name n _ r.children ne

found-Placed :
    (names : Table Bytes Bytes) (spec : ConversationSpec) (o : Option Conversation)
    (r : Reconciliation)
    → let r' = add_found (spec_name names spec) spec o r in
      (c : Conversation) × (lookup spec.id r'.cache ≡ some c)
      × Placed names spec o c
      × (lookup (spec_name names spec) r'.children ≡ some c.node)
unfolding Keeps add_found place new_conversation update_conversation
found-Placed names spec none r = (
  _,
  lookup-put_self spec.id _ r.cache,
  (refl, refl, tt),
  lookup-put_self (spec_name names spec) _ r.children,
)
found-Placed names spec (some old) r = (
  _,
  lookup-put_self spec.id _ r.cache,
  (refl, refl, (refl, refl)),
  lookup-put_self (spec_name names spec) _ r.children,
)

module _ (names : Table Bytes Bytes) where
  add_cache :
      (specs : List ConversationSpec) (r : Reconciliation) (id : Bytes)
      → All (λ spec. spec.id ≢ id) specs
      → lookup id (add_specs names specs r).cache ≡ lookup id r.cache
  unfolding add_specs
  add_cache [] r id apart = refl
  add_cache (spec ∷ specs) r id (ne, apart) =
      add_cache specs _ id apart
      ∙ found_cache (spec_name names spec) spec (lookup spec.id r.cache) r id ne

  -- A later conversation has the name.
  unfoldable pub IsShadowed : Bytes → List ConversationSpec → Type 0
  IsShadowed n [] = ⊥
  IsShadowed n (spec ∷ specs) = (spec_name names spec ≡ n) ⊎ IsShadowed n specs

  -- The child of a name stays, or a later conversation has the name.
  add_children-IsShadowed :
      (specs : List ConversationSpec) (r : Reconciliation) (n : Bytes)
      → (lookup n (add_specs names specs r).children ≡ lookup n r.children) ⊎ IsShadowed n specs
  unfolding add_specs IsShadowed
  add_children-IsShadowed [] r n = inl refl
  add_children-IsShadowed (spec ∷ specs) r n = elim (Bool-cases (spec_name names spec == n)) [
    | inl e ↦ inr (inl ((bytes_beq_iff (spec_name names spec) n).0 e))
    | inr e ↦
        elim (add_children-IsShadowed specs
          (add_found (spec_name names spec) spec (lookup spec.id r.cache) r) n) [
            | inr later ↦ inr (inr later)
            | inl same ↦ inl (
                same
                ∙ found_children (spec_name names spec) spec (lookup spec.id r.cache) r n
                    (λ h. let t = (bytes_beq_iff (spec_name names spec) n).1 h in cc))
          ]
  ]

  add-Placed :
      (xs : List ConversationSpec) (spec : ConversationSpec) (ys : List ConversationSpec)
      (r : Reconciliation)
      → All (λ other. other.id ≢ spec.id) xs
      → All (λ other. other.id ≢ spec.id) ys
      → let r' = add_specs names (xs ++ spec ∷ ys) r in
        (c : Conversation) × (lookup spec.id r'.cache ≡ some c)
        × Placed names spec (lookup spec.id r.cache) c
        × ((lookup (spec_name names spec) r'.children ≡ some c.node)
            ⊎ IsShadowed (spec_name names spec) ys)
  unfolding add_specs
  add-Placed [] spec ys r before after =
      let (c, cached, placed, child) = found-Placed names spec (lookup spec.id r.cache) r in
      (
        c,
        add_cache ys _ spec.id after ∙ cached,
        placed,
        elim (add_children-IsShadowed ys _ (spec_name names spec)) [
          | inl same ↦ inl (same ∙ child)
          | inr later ↦ inr later
        ],
      )
  add-Placed (x ∷ xs) spec ys r (ne, before) after =
      let r1 = add_found (spec_name names x) x (lookup x.id r.cache) r in
      let (c, cached, placed, child) = add-Placed xs spec ys r1 before after in
      (
        c,
        cached,
        subst (λ o. Placed names spec o c)
            (found_cache (spec_name names x) x (lookup x.id r.cache) r spec.id ne) placed,
        child,
      )

-- Which conversations are left.
lookup-keep_active :
    (specs : List ConversationSpec) (cache : Table Bytes Conversation) (id : Bytes)
    → lookup id (keep_active specs cache) ≡ (if is_active id specs then lookup id cache else none)
unfolding keep_active lookup
lookup-keep_active specs [] id = elim (Bool-cases (is_active id specs)) [
  | inl a ↦ rw a refl
  | inr a ↦ rw a refl
]
lookup-keep_active specs ((key, c) ∷ cache) id = elim (Bool-cases (key == id)) [
  | inl e ↦
      let same : key ≡ id = (bytes_beq_iff key id).0 e in
      let alike : is_active key specs ≡ is_active id specs = ap (λ k. is_active k specs) same in
      elim (Bool-cases (is_active id specs)) [
        | inl a ↦ rw (alike, a, e) refl
        | inr a ↦ rw (alike, a, lookup-keep_active specs cache id, a) refl
      ]
  | inr e ↦ elim (Bool-cases (is_active key specs)) [
    | inl a ↦ rw (a, e, lookup-keep_active specs cache id) refl
    | inr a ↦ rw (a, e, lookup-keep_active specs cache id) refl
  ]
]

is_active-at :
    (xs : List ConversationSpec) (spec : ConversationSpec) (ys : List ConversationSpec)
    → is_active spec.id (xs ++ spec ∷ ys) ≡ true
unfolding is_active
is_active-at [] spec ys = rw (beq_refl spec.id) refl
is_active-at (x ∷ xs) spec ys = elim (Bool-cases (x.id == spec.id)) [
  | inl e ↦ rw e refl
  | inr e ↦ rw (e, is_active-at xs spec ys) refl
]

is_active-apart :
    (specs : List ConversationSpec) (id : Bytes)
    → All (λ spec. spec.id ≢ id) specs
    → is_active id specs ≡ false
unfolding is_active
is_active-apart [] id apart = refl
is_active-apart (spec ∷ specs) id (ne, apart) =
    rw (beq_ne spec.id id ne, is_active-apart specs id apart) refl

-- A conversation that is listed once is in the cache afterwards, with the information of its spec and
-- the name that was assigned to it; if it was in the cache before, it keeps its directory and its
-- channel. The parent's child of that name is its directory, or a conversation listed behind it was
-- assigned the same name.
pub reconcile_conversations-Placed :
    (xs : List ConversationSpec) (spec : ConversationSpec) (ys : List ConversationSpec) (next : ℕ)
    (cache : Table Bytes Conversation)
    → All (λ other. other.id ≢ spec.id) xs
    → All (λ other. other.id ≢ spec.id) ys
    → let names = spec_names (xs ++ spec ∷ ys) in
      let r = reconcile_conversations (xs ++ spec ∷ ys) next cache in
      (c : Conversation) × (lookup spec.id r.cache ≡ some c)
      × Placed names spec (lookup spec.id cache) c
      × ((lookup (spec_name names spec) r.children ≡ some c.node)
          ⊎ IsShadowed names (spec_name names spec) ys)
unfolding reconcile_conversations
reconcile_conversations-Placed xs spec ys next cache before after =
    let names = spec_names (xs ++ spec ∷ ys) in
    let r : Reconciliation = record { next = next; cache = cache; children = [] } in
    let (c, cached, placed, child) = add-Placed names xs spec ys r before after in
    (
      c,
      lookup-keep_active (xs ++ spec ∷ ys) _ spec.id ∙ rw (is_active-at xs spec ys) cached,
      placed,
      child,
    )

-- A conversation that is not listed is not in the cache afterwards, so a later one with its identifier
-- gets a new directory.
pub reconcile_conversations-gone :
    (specs : List ConversationSpec) (next : ℕ) (cache : Table Bytes Conversation) (id : Bytes)
    → All (λ spec. spec.id ≢ id) specs
    → lookup id (reconcile_conversations specs next cache).cache ≡ none
unfolding reconcile_conversations
reconcile_conversations-gone specs next cache id apart =
    lookup-keep_active specs _ id ∙ rw (is_active-apart specs id apart) refl
