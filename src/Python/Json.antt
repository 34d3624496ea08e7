-- ===== src/Python/Json.antt =====
-- Values of the `json` module, and the two calls of it that the program makes.
use jet_core_service_bus.Prelude.{
  ℕ, ℤ, String, ◌≡◌, refl, Bool, true, false, Option, none, some, List, if◌then◌else◌, str_eq,
}
use jet_core_service_bus.Python.Exception.{Exception, Result, ok, err, ◌>>=◌}

-- A `bytes` value: its bytes, as numbers.
abbrev pub Bytes : Type 0
Bytes = List ℕ

-- What `json.loads` returns: a `dict` has its keys in the order of the text. A `float` keeps its
-- text: the program never computes with one.
mutual
  pub data Json : Type 0 where
    null : Json
    bool : Bool → Json
    int : ℤ → Json
    float : String → Json
    str : String → Json
    arr : Items → Json
    obj : Fields → Json

  pub data Items : Type 0 where
    nil : Items
    cons : Json → Items → Items

  pub data Fields : Type 0 where
    end : Fields
    field : String → Json → Fields → Fields

unfoldable pub find_field : Fields → String → Option Json
find_field end k = none
find_field (field j v fs) k = if str_eq j k then some v else find_field fs k

abbrev or_key_error : Option Json → Result Json
or_key_error none = err Exception.key_error
or_key_error (some v) = ok v

-- `data[key]` with a text for a key: only a dict has such items.
unfoldable pub get_item : Json → String → Result Json
unfolding find_field
get_item (Json.obj fs) key = or_key_error (find_field fs key)
get_item _ key = err Exception.type_error

abbrev pub is_object : Json → Bool
is_object (Json.obj fs) = true
is_object _ = false

pub get_item-non_object :
    (v : Json) (key : String) → is_object v ≡ false → get_item v key ≡ err Exception.type_error
unfolding get_item
get_item-non_object (Json.obj fs) key h = cc
get_item-non_object _ key h = refl

-- `json.loads` on bytes and `json.dumps(…).encode()`. `loads` may raise `JSONDecodeError`, or, where
-- the bytes are no UTF-8, `UnicodeDecodeError`.
pub record JsonModule : Type 0 where
  pub loads : Bytes → Result Json
  pub dumps : Json → Bytes
  -- `str(v)` of a value that is no text
  pub repr : Json → String

-- A text that `dumps` wrote is read back as the value that was written.
pub record RoundTrips (J : JsonModule) : Type 0 where
  pub loads-dumps : (v : Json) → J.loads (J.dumps v) ≡ ok v

-- `json.loads(data)[key]`
unfoldable pub load_item : JsonModule → Bytes → String → Result Json
load_item J bytes key = do v ← J.loads bytes; get_item v key

-- `str(v)`
unfoldable pub to_str : JsonModule → Json → String
to_str J (Json.str s) = s
to_str J v = J.repr v
