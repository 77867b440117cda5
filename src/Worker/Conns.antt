-- ===== src/Worker/Conns.antt =====
-- The `conns` map of flashrelay/worker.go as an association list keyed by the connection id, with
-- what its operations do to any sum over the connections.
use Prim.Native.Nat.{max}
use flash_relay.Base.{
  ℕ, ◌+◌, ◌≤◌, ◌≡◌, refl, false, List, [], ◌∷◌, Option, none, some, arith, ◌==◌, if◌then◌else◌,
  length,
}
use flash_relay.Worker.State.{Conn}

-- `conns[id]`
unfoldable pub find : ℕ → List Conn → Option Conn
find id [] = none
find id (c ∷ cs) = if c.id == id then some c else find id cs

-- What a write through the `*conn` of an id does to the map.
unfoldable pub put : Conn → List Conn → List Conn
put cc [] = []
put cc (c ∷ cs) = if c.id == cc.id then cc ∷ cs else c ∷ put cc cs

-- `delete(conns, id)`
unfoldable pub delete : ℕ → List Conn → List Conn
delete id [] = []
delete id (c ∷ cs) = if c.id == id then cs else c ∷ delete id cs

module _ (weight : Conn → ℕ) where
  pub total : List Conn → ℕ
  total [] = 0
  total (c ∷ cs) = weight c + total cs

  pub total-nil : total [] ≡ 0
  unfolding total
  total-nil = refl

  pub total-cons : (c : Conn) (cs : List Conn) → total (c ∷ cs) ≡ weight c + total cs
  unfolding total
  total-cons c cs = refl

  pub total-put :
      (cc old : Conn) (cs : List Conn)
      → find cc.id cs ≡ some old
      → total (put cc cs) + weight old ≡ total cs + weight cc
  unfolding total find put
  total-put cc old [] h = ground arith
  total-put cc old (c ∷ cs) h = ground (arith, total-put cc old cs)

  pub total-delete :
      (id : ℕ) (old : Conn) (cs : List Conn)
      → find id cs ≡ some old
      → total (delete id cs) + weight old ≡ total cs
  unfolding total find delete
  total-delete id old [] h = ground arith
  total-delete id old (c ∷ cs) h = ground (arith, total-delete id old cs)

  pub le_total-find :
      (id : ℕ) (c : Conn) (cs : List Conn) → find id cs ≡ some c → weight c ≤ total cs
  unfolding total find
  le_total-find id c [] h = ground arith
  le_total-find id c (x ∷ cs) h = ground (arith, le_total-find id c cs)

pub find-id : (id : ℕ) (c : Conn) (cs : List Conn) → find id cs ≡ some c → c.id ≡ id
unfolding find
find-id id c [] h = ground arith
find-id id c (x ∷ cs) h = ground (arith, find-id id c cs)

pub find-put_self :
    (cc old : Conn) (cs : List Conn) → find cc.id cs ≡ some old → find cc.id (put cc cs) ≡ some cc
unfolding find put
find-put_self cc old [] h = ground arith
find-put_self cc old (c ∷ cs) h = ground (arith, find-put_self cc old cs)

pub find-put_other :
    (id : ℕ) (cc : Conn) (cs : List Conn) → (cc.id == id) ≡ false → find id (put cc cs) ≡ find id cs
unfolding find put
find-put_other id cc [] h = refl
find-put_other id cc (c ∷ cs) h = ground (arith, find-put_other id cc cs)

pub find-delete_other :
    (id other : ℕ) (cs : List Conn)
    → (id == other) ≡ false
    → find other (delete id cs) ≡ find other cs
unfolding find delete
find-delete_other id other [] h = refl
find-delete_other id other (c ∷ cs) h = ground (arith, find-delete_other id other cs)

pub length-put : (cc : Conn) (cs : List Conn) → length (put cc cs) ≡ length cs
unfolding put
length-put cc [] = refl
length-put cc (c ∷ cs) = ground (arith, length-put cc cs)

pub length-delete_le : (id : ℕ) (cs : List Conn) → length (delete id cs) ≤ length cs
unfolding delete
length-delete_le id [] = omega arith
length-delete_le id (c ∷ cs) = ground (arith, length-delete_le id cs)

-- How many connections have an id, and the largest id.
unfoldable pub count_id : ℕ → List Conn → ℕ
count_id id [] = 0
count_id id (c ∷ cs) = (if c.id == id then 1 else 0) + count_id id cs

unfoldable pub top_id : List Conn → ℕ
top_id [] = 0
top_id (c ∷ cs) = max c.id (top_id cs)

pub count_id-put : (id : ℕ) (c : Conn) (cs : List Conn) → count_id id (put c cs) ≡ count_id id cs
unfolding count_id put
count_id-put id c [] = refl
count_id-put id c (x ∷ cs) = ground (arith, count_id-put id c cs)

pub count_id-delete_le :
    (id other : ℕ) (cs : List Conn) → count_id id (delete other cs) ≤ count_id id cs
unfolding count_id delete
count_id-delete_le id other [] = omega arith
count_id-delete_le id other (x ∷ cs) = ground (arith, count_id-delete_le id other cs)

pub top_id-put : (c : Conn) (cs : List Conn) → top_id (put c cs) ≡ top_id cs
unfolding top_id put
top_id-put c [] = refl
top_id-put c (x ∷ cs) = ground (arith, top_id-put c cs)

pub top_id-delete_le : (id : ℕ) (cs : List Conn) → top_id (delete id cs) ≤ top_id cs
unfolding top_id delete
top_id-delete_le id [] = omega arith
top_id-delete_le id (x ∷ cs) = ground (arith, top_id-delete_le id cs)

pub find-le_top : (id : ℕ) (c : Conn) (cs : List Conn) → find id cs ≡ some c → id ≤ top_id cs
unfolding find top_id
find-le_top id c [] h = ground arith
find-le_top id c (x ∷ cs) h = ground (arith, find-le_top id c cs)

pub find-eq_none : (id : ℕ) (cs : List Conn) → count_id id cs ≡ 0 → find id cs ≡ none
unfolding find count_id
find-eq_none id [] h = refl
find-eq_none id (x ∷ cs) h = ground (arith, find-eq_none id cs)

-- A key that stands once is gone when it is deleted.
pub find-delete_self :
    (id : ℕ) (cs : List Conn) → count_id id cs ≤ 1 → find id (delete id cs) ≡ none
unfolding find delete count_id
find-delete_self id [] h = refl
find-delete_self id (x ∷ cs) h = ground (arith, find-delete_self id cs, find-eq_none id cs)
