-- ===== src/Tests/Store.antt =====
-- A cache of five bytes, alone and before a store of two objects.
use lakeql.Base.{
  ℕ, zero, suc, ◌≡◌, refl, ap, List, [], ◌∷◌, Option, none, some, arith, length, if◌then◌else◌, inl,
  inr, leb,
}
use lakeql.Base.Order.{compare_text}
use lakeql.Base.Result.{ok}
use lakeql.Expr.{Text}
use lakeql.Evaluator.{text_eq}
use lakeql.Cache.{SharedMemoryCache, get, set, delete_where, total_bytes}
use lakeql.Cache.Accounting.{IsValid, set-IsValid, get-IsValid, delete_where-IsValid}
use lakeql.Cache.{evict_key, lowest}
use lakeql.Base.{Any, All, ◌≤◌}
use lakeql.Cache.Priority.{evict_key_lem}
use lakeql.CachedStore.{
  Bytes, ObjectHead, ObjectStore, object, CachePolicy, Cached, object_key, get_object, get_range,
  get_head, put_object, delete_object,
}
use lakeql.CachedStore.Keys.{HasColon, IsNumeral}
use lakeql.CachedStore.Coherence.{
  IsCoherent, IsLocal, get_object-Reads, get_range-Reads, get_head-Reads, write-IsCoherent,
}

abbrev a_key : Text
a_key = b'a' ∷ []

abbrev b_key : Text
b_key = b'b' ∷ []

abbrev numbers : SharedMemoryCache ℕ
numbers = record {
  max_bytes = 5;
  ttl_ms = some 100;
  entries = (a_key, record { value = 7; bytes = 3; priority = 1; expires_at = some 50 }) ∷ [];
  cached_bytes = 3;
}

numbers-IsValid : IsValid numbers
unfolding total_bytes
numbers-IsValid = record { counted = refl; bounded = omega arith }

set-IsValid_example : IsValid (set 10 numbers b_key 8 4 2)
set-IsValid_example = set-IsValid 10 numbers b_key 8 4 2 numbers-IsValid

get-IsValid_example : IsValid (get 60 numbers a_key).0
get-IsValid_example = get-IsValid 60 numbers a_key numbers-IsValid

delete_where-IsValid_example : IsValid (delete_where numbers (λ v. leb v 7))
delete_where-IsValid_example = delete_where-IsValid numbers (λ v. leb v 7) numbers-IsValid

numbers-evict : evict_key numbers.entries ≡ some a_key
unfolding evict_key lowest
numbers-evict = refl

evict_key_lem_example :
    (p : ℕ) × Any (λ e. (e.0 ≡ a_key) × (e.1.priority ≡ p)) numbers.entries
    × All (λ e. p ≤ e.1.priority) numbers.entries
evict_key_lem_example = evict_key_lem numbers.entries a_key numbers-evict

abbrev Files : Type 0
Files = List (Text × Option Bytes)

abbrev file_at : Text → Files → Option Bytes
file_at path [] = none
file_at path ((p, body) ∷ files) = if text_eq path p then body else file_at path files

abbrev head_of : Option Bytes → Option ObjectHead
head_of none = none
head_of (some body) =
    some (record { size = length body; etag = none; last_modified = none; content_type = none })

-- Numerals in base one.
abbrev pub tally : ℕ → Text
tally zero = []
tally (suc n) = b'1' ∷ tally n

abbrev file_store : ObjectStore Files
file_store = record {
  read = λ files path. ok (file_at path files);
  read_range = λ files path offset size. ok (tally size);
  read_head = λ files path. ok (head_of (file_at path files));
  write = λ files path body. ((path, some body) ∷ files, ok tt);
  erase = λ files path. ((path, none) ∷ files, ok tt);
  decimal = tally;
}

tally-no_colon : (n : ℕ) → HasColon (tally n) → ⊥
tally-no_colon zero h = elim h [ ]
tally-no_colon (suc n) (inl e) = absurd (omega (arith, e))
tally-no_colon (suc n) (inr h) = tally-no_colon n h

tally-injective : (m n : ℕ) → tally m ≡ tally n → m ≡ n
tally-injective zero zero e = refl
tally-injective zero (suc n) e = absurd (cc)
tally-injective (suc m) zero e = absurd (cc)
tally-injective (suc m) (suc n) e = ap suc (tally-injective m n (cc))

pub tally-IsNumeral : IsNumeral tally
tally-IsNumeral = record { no_colon = tally-no_colon; injective = tally-injective }

file_store-IsLocal : IsLocal file_store
file_store-IsLocal = record {
  write_local = λ s path body. λ p n. rw n (refl, λ o m. refl, refl);
  erase_local = λ s path. λ p n. rw n (refl, λ o m. refl, refl);
}

abbrev two_files : Files
two_files = (a_key, some (7 ∷ 8 ∷ [])) ∷ (b_key, some (9 ∷ [])) ∷ []

abbrev warm : Cached
warm = record {
  max_bytes = 5;
  ttl_ms = none;
  entries =
      (
        object_key a_key,
        record {
          value = object a_key (some (7 ∷ 8 ∷ []));
          bytes = 2;
          priority = 2;
          expires_at = none;
        },
      )
      ∷ [];
  cached_bytes = 2;
}

warm-IsCoherent : IsCoherent file_store two_files warm
unfolding compare_text
warm-IsCoherent = ((refl, refl), tt)

get_object-Reads_example :
    ((get_object file_store CachePolicy.io 1 2 two_files warm a_key).1
      ≡ file_store.read two_files a_key)
    × IsCoherent file_store two_files
        (get_object file_store CachePolicy.io 1 2 two_files warm a_key).0
get_object-Reads_example =
    get_object-Reads file_store CachePolicy.io 1 2 two_files warm a_key warm-IsCoherent

get_head-Reads_example :
    ((get_head file_store CachePolicy.io 1 2 two_files warm b_key).1
      ≡ file_store.read_head two_files b_key)
    × IsCoherent file_store two_files
        (get_head file_store CachePolicy.io 1 2 two_files warm b_key).0
get_head-Reads_example =
    get_head-Reads file_store CachePolicy.io 1 2 two_files warm b_key warm-IsCoherent

get_range-Reads_example :
    ((get_range file_store CachePolicy.latency 1 2 two_files warm a_key 1 3).1
      ≡ file_store.read_range two_files a_key 1 3)
    × IsCoherent file_store two_files
        (get_range file_store CachePolicy.latency 1 2 two_files warm a_key 1 3).0
get_range-Reads_example =
    get_range-Reads file_store CachePolicy.latency 1 2 two_files warm a_key 1 3 tally-IsNumeral
      warm-IsCoherent

write-IsCoherent_example :
    IsCoherent file_store
      (put_object file_store CachePolicy.io two_files warm a_key (1 ∷ [])).0
      (put_object file_store CachePolicy.io two_files warm a_key (1 ∷ [])).1
    × IsCoherent file_store
        (delete_object file_store CachePolicy.io two_files warm a_key).0
        (delete_object file_store CachePolicy.io two_files warm a_key).1
write-IsCoherent_example =
    write-IsCoherent file_store CachePolicy.io two_files warm a_key (1 ∷ []) file_store-IsLocal
      warm-IsCoherent
