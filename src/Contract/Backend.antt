-- ===== src/Contract/Backend.antt =====
-- `BroadcasterBackend`, sets of backends, and the stable sort of a vector by backend.
use tycho_simulation_server.Base.{
  ℕ, Bool, true, false, ◌≡◌, refl, ◌&&◌, ◌||◌, not, List, [], ◌∷◌, ltb, if◌then◌else◌, Text, codes,
}

-- The derived order is the order of the constructors.
pub data Backend : Type 0 where
  native vm rfq : Backend

abbrev pub as_str : Backend → Text
as_str native = codes "native"
as_str vm = codes "vm"
as_str rfq = codes "rfq"

abbrev pub rank : Backend → ℕ
rank native = 0
rank vm = 1
rank rfq = 2

abbrev pub backend_eq : Backend → Backend → Bool
backend_eq native native = true
backend_eq vm vm = true
backend_eq rfq rfq = true
backend_eq _ _ = false

-- HashSet<BroadcasterBackend>: one flag for each backend.
pub record BackendSet : Type 0 where
  pub has_native : Bool
  pub has_vm : Bool
  pub has_rfq : Bool

abbrev pub empty : BackendSet
empty = record { has_native = false; has_vm = false; has_rfq = false }

abbrev pub contains : Backend → BackendSet → Bool
contains native s = s.has_native
contains vm s = s.has_vm
contains rfq s = s.has_rfq

abbrev pub insert : Backend → BackendSet → BackendSet
insert native s = record s { has_native = true }
insert vm s = record s { has_vm = true }
insert rfq s = record s { has_rfq = true }

-- HashSet::extend
unfoldable pub extend : BackendSet → List Backend → BackendSet
extend s [] = s
extend s (b ∷ bs) = extend (insert b s) bs

-- backends.iter().copied().collect()
unfoldable pub from_list : List Backend → BackendSet
unfolding extend
from_list bs = extend empty bs

abbrev pub keep_if : Bool → Backend → List Backend → List Backend
keep_if true b bs = b ∷ bs
keep_if false b bs = bs

-- The difference of two sets as a sorted vector.
unfoldable pub difference : BackendSet → BackendSet → List Backend
difference s t =
    keep_if (s.has_native && not t.has_native) native
      (keep_if (s.has_vm && not t.has_vm) vm (keep_if (s.has_rfq && not t.has_rfq) rfq []))

-- Vec::sort_by_key, which is stable, by insertion from the right.
module _ {A : Type 0} (key : A → Backend) where
  insert_sorted : A → List A → List A
  insert_sorted x [] = x ∷ []
  insert_sorted x (y ∷ ys) =
      let rest = insert_sorted x ys in
      if ltb (rank (key y)) (rank (key x)) then y ∷ rest else x ∷ y ∷ ys

  unfoldable pub sort_by_key : List A → List A
  unfolding insert_sorted
  sort_by_key [] = []
  sort_by_key (x ∷ xs) = insert_sorted x (sort_by_key xs)

abbrev pub IsSubset : BackendSet → BackendSet → Type 0
IsSubset s t = (b : Backend) → contains b s ≡ true → contains b t ≡ true

pub contains-insert :
    (b c : Backend) (s : BackendSet) → contains b (insert c s) ≡ (backend_eq b c || contains b s)
contains-insert native native s = refl
contains-insert native vm s = refl
contains-insert native rfq s = refl
contains-insert vm native s = refl
contains-insert vm vm s = refl
contains-insert vm rfq s = refl
contains-insert rfq native s = refl
contains-insert rfq vm s = refl
contains-insert rfq rfq s = refl
