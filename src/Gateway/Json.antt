-- ===== src/Gateway/Json.antt =====
-- Decoded JSON as `map[string]any` and `[]any` hold it, and the helpers of the package
-- k8s.io/apimachinery/pkg/apis/meta/v1/unstructured that internal/gatewayreroute calls.
use ai_finops_operator.Prelude.{
  ◌≡◌, refl, String, Bool, false, ◌==◌, Option, none, some, if◌then◌else◌, arith, eq_iff,
}

mutual
  pub data Json : Type 0 where
    null : Json
    boolean : Bool → Json
    number : String → Json
    text : String → Json
    array : Items → Json
    object : Fields → Json

  pub data Items : Type 0 where
    nil : Items
    cons : Json → Items → Items

  pub data Fields : Type 0 where
    end : Fields
    field : String → Json → Fields → Fields

-- `v, ok := m[k]`
unfoldable pub get : String → Fields → Option Json
get k end = none
get k (field j v m) = if j == k then some v else get k m

-- `m[k] = v`
unfoldable pub put : String → Json → Fields → Fields
put k v end = field k v end
put k v (field j w m) = if j == k then field k v m else field j w (put k v m)

-- `delete(m, k)`
unfoldable pub remove : String → Fields → Fields
remove k end = end
remove k (field j w m) = let rest = remove k m in if j == k then rest else field j w rest

-- `v.(map[string]any)`
abbrev pub as_object : Json → Option Fields
as_object (object o) = some o
as_object _ = none

-- The values that the helpers return where the field is missing or of another type, which the code
-- uses without looking at the other results.
abbrev pub slice_of : Option Json → Items
slice_of (some (array xs)) = xs
slice_of _ = nil

abbrev pub string_of : Option Json → String
string_of (some (text s)) = s
string_of _ = ""

-- NestedSlice and NestedString read a field of the wanted type, SetNestedSlice writes one.
pub record Unstructured : Type 0 where
  pub nested_slice : Fields → String → Items
  pub nested_string : Fields → String → String
  pub set_nested_slice : Fields → Items → String → Fields
  pub nested_slice_law : (o : Fields) (k : String) → nested_slice o k ≡ slice_of (get k o)
  pub nested_string_law : (o : Fields) (k : String) → nested_string o k ≡ string_of (get k o)
  pub set_nested_slice_law :
      (o : Fields) (xs : Items) (k : String) → set_nested_slice o xs k ≡ put k (array xs) o

pub get-put :
    (k j : String) (v : Json) (m : Fields)
    → get j (put k v m) ≡ (if k == j then some v else get j m)
unfolding get put
get-put k j v end = refl
get-put k j v (field i w m) = ground (arith, eq_iff k j, eq_iff i k, eq_iff i j, get-put k j v m)

pub get-remove :
    (k j : String) (m : Fields) → get j (remove k m) ≡ (if k == j then none else get j m)
unfolding get remove
get-remove k j end = ground arith
get-remove k j (field i w m) = ground (arith, eq_iff k j, eq_iff i k, eq_iff i j, get-remove k j m)

-- Writing back what stood there undoes a write.
pub put-put_back :
    (k : String) (v w : Json) (m : Fields) → get k m ≡ some w → put k w (put k v m) ≡ m
unfolding get put
put-put_back k v w end h = ground arith
put-put_back k v w (field i x m) h = ground (arith, eq_iff i k, eq_iff k k, put-put_back k v w m)

pub put_twice : (k : String) (v w : Json) (m : Fields) → put k w (put k v m) ≡ put k w m
unfolding put
put_twice k v w end = ground (arith, eq_iff k k)
put_twice k v w (field i x m) = ground (arith, eq_iff i k, eq_iff k k, put_twice k v w m)

pub put_comm :
    (k j : String) (v w : Json) (m : Fields) {x : Json}
    → (k == j) ≡ false
    → get k m ≡ some x
    → put k v (put j w m) ≡ put j w (put k v m)
unfolding put get
put_comm k j v w end d h = cc
put_comm k j v w (field i y m) {x} d h =
    ground (arith, eq_iff k j, eq_iff i k, eq_iff i j, eq_iff j k, put_comm k j v w m {x = x} d)

-- Removing a field that has just been added.
pub remove-fresh : (k : String) (m : Fields) → get k m ≡ none → remove k m ≡ m
unfolding get remove
remove-fresh k end h = refl
remove-fresh k (field i x m) h = ground (arith, eq_iff i k, remove-fresh k m)

pub remove-put : (k : String) (v : Json) (m : Fields) → get k m ≡ none → remove k (put k v m) ≡ m
unfolding get put remove
remove-put k v end h = ground (arith, eq_iff k k)
remove-put k v (field i x m) h = ground (arith, eq_iff i k, eq_iff k k, remove-put k v m)

pub put_same : (k : String) (v : Json) (m : Fields) → get k m ≡ some v → put k v m ≡ m
unfolding get put
put_same k v end h = cc
put_same k v (field i x m) h = ground (arith, eq_iff i k, put_same k v m)
