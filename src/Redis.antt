-- ===== src/Redis.antt =====
-- The Redis server as the program uses it: the commands of the Lua scripts in
-- infra/actor/registry.go and base/db/redis/dlock.go, with their documented effect on a key. The
-- server and its Lua engine are not part of the repository, so they are a parameter of the scripts.
pub mod Memory
use ggskit.Common.{
  [], ℕ, suc, ◌*◌, ◌^◌, ◌≡◌, Bool, true, false, ◌&&◌, Option, none, some, List, ◌∷◌, ltb,
  if◌then◌else◌, Text, ◌==◌, Map, put, ok, err, nat_eq, text_eq,
}
use ggskit.Common.Int.{ℤ, pos, negsuc, ltb_ℤ, ◌+ℤ◌}
use ggskit.Strconv.{format_int, parse_int}

-- `stream` shows the fields of the newest entry.
pub data Value : Type 0 where
  hash : Map Text Text → Value
  str : Text → Value
  stream : List (Text × Text) → Value
  other : Value

-- `ttl` is the time to live in milliseconds, `none` without an expiry.
pub record Item : Type 0 where
  pub value : Value
  pub ttl : Option ℕ

abbrev pub item_of : Value → Option ℕ → Option Item
item_of v t = some (record { value = v; ttl = t })

-- The reply of TYPE.
pub data KeyType : Type 0 where
  none_type hash_type string_type other_type : KeyType

abbrev pub type_of : Option Item → KeyType
type_of none = none_type
type_of (some i) = elim i.value [
  | hash m ↦ hash_type
  | str s ↦ string_type
  | stream e ↦ other_type
  | other ↦ other_type
]

abbrev pub fields_of : Option Item → Map Text Text
fields_of none f = none
fields_of (some i) f = elim i.value [ hash m ↦ m f | _ ↦ none ]

abbrev pub text_of : Option Item → Option Text
text_of none = none
text_of (some i) = elim i.value [ str s ↦ some s | _ ↦ none ]

abbrev pub expiry_of : Option Item → Option ℕ
expiry_of none = none
expiry_of (some i) = i.ttl

-- PTTL: -2 for no key, -1 for no expiry.
abbrev pub pttl_of : Option Item → ℤ
pttl_of none = negsuc 1
pttl_of (some i) = elim i.ttl [ none ↦ negsuc 0 | some ms ↦ pos ms ]

-- HSET and HINCRBY want a hash or no key, XADD a stream or no key.
abbrev pub takes_fields : Option Item → Bool
takes_fields none = true
takes_fields (some i) = elim i.value [ hash m ↦ true | _ ↦ false ]

abbrev pub takes_entries : Option Item → Bool
takes_entries none = true
takes_entries (some i) = elim i.value [ stream e ↦ true | _ ↦ false ]

abbrev pub put_all : List (Text × Text) → Map Text Text → Map Text Text
put_all [] m = m
put_all ((f, v) ∷ fs) m = put_all fs (put f v m)

abbrev pub set_fields : List (Text × Text) → Option Item → Option Item
set_fields fs o = some (record { value = hash (put_all fs (fields_of o)); ttl = expiry_of o })

abbrev pub add_entry : List (Text × Text) → Option Item → Option Item
add_entry fs o = some (record { value = stream fs; ttl = expiry_of o })

abbrev pub set_ttl : Option ℕ → Option Item → Option Item
set_ttl t none = none
set_ttl t (some i) = some (record i { ttl = t })

-- The sum of HINCRBY, `none` where the field is no integer or the sum overflows.
in_int64 : ℤ → Bool
in_int64 (pos n) = ltb n (2 ^ 63)
in_int64 (negsuc n) = ltb n (2 ^ 63)

checked : ℤ → Option ℤ
unfolding in_int64
checked z = if in_int64 z then some z else none

unfoldable pub increment : Option Text → ℤ → Option ℤ
unfolding checked ◌+ℤ◌
increment none n = checked n
increment (some t) n = elim (parse_int t) [ ok z ↦ checked (z +ℤ n) | err e ↦ none ]

abbrev pub increment_of : Option Item → Text → ℤ → Option ℤ
increment_of o f n = if takes_fields o then increment (fields_of o f) n else none

abbrev pub set_increment : Text → Option ℤ → Option Item → Option Item
set_increment f none o = o
set_increment f (some z) o = set_fields ((f, format_int z) ∷ []) o

-- A write replies `false` where the server answers with an error.
pub record Redis : Type 1 where
  pub Db : Type 0
  pub type_key : Text → Db → KeyType
  pub get : Text → Db → Option Text
  pub hget : Text → Text → Db → Option Text
  pub pttl : Text → Db → ℤ
  pub hset : Text → List (Text × Text) → Db → Db × Bool
  pub hincrby : Text → Text → ℤ → Db → Db × Option ℤ
  pub xadd : Text → ℤ → List (Text × Text) → Db → Db × Bool
  pub expire : Text → ℤ → Db → Db × Bool
  pub persist : Text → Db → Db
  pub del : Text → Db → Db
  -- The Lua engine: `tonumber`, the text of a number that a command is given, `cjson.decode` of the
  -- texts that the registry once wrote, whose fields are texts: `none` for what is no JSON.
  pub tonumber : Text → Option ℤ
  pub number_text : ℤ → Text
  pub cjson_decode : Text → Option (Map Text Text)
  -- EXPIRE refuses a time that overflows the clock.
  pub expire_fits : ℤ → Bool
  -- What a key holds, and the effect of each command on it.
  pub item : Text → Db → Option Item
  pub type_key-item : (k : Text) (db : Db) → type_key k db ≡ type_of (item k db)
  pub get-item : (k : Text) (db : Db) → get k db ≡ text_of (item k db)
  pub hget-item : (k f : Text) (db : Db) → hget k f db ≡ fields_of (item k db) f
  pub pttl-item : (k : Text) (db : Db) → pttl k db ≡ pttl_of (item k db)
  pub hset_reply :
      (k : Text) (fs : List (Text × Text)) (db : Db) → (hset k fs db).1 ≡ takes_fields (item k db)
  pub item-hset :
      (k : Text) (fs : List (Text × Text)) (db : Db) (j : Text)
      → item j (hset k fs db).0
        ≡ (if k == j && takes_fields (item k db) then set_fields fs (item k db) else item j db)
  pub hincrby_reply :
      (k f : Text) (n : ℤ) (db : Db) → (hincrby k f n db).1 ≡ increment_of (item k db) f n
  pub item-hincrby :
      (k f : Text) (n : ℤ) (db : Db) (j : Text)
      → item j (hincrby k f n db).0
        ≡ (if k == j then set_increment f (increment_of (item k db) f n) (item k db) else item j db)
  pub xadd_reply :
      (k : Text) (m : ℤ) (fs : List (Text × Text)) (db : Db)
      → (xadd k m fs db).1 ≡ takes_entries (item k db)
  pub item-xadd :
      (k : Text) (m : ℤ) (fs : List (Text × Text)) (db : Db) (j : Text)
      → item j (xadd k m fs db).0
        ≡ (if k == j && takes_entries (item k db) then add_entry fs (item k db) else item j db)
  pub expire_reply : (k : Text) (n : ℕ) (db : Db) → (expire k (pos n) db).1 ≡ expire_fits (pos n)
  pub item-expire :
      (k : Text) (n : ℕ) (db : Db) (j : Text)
      → item j (expire k (pos (suc n)) db).0 ≡ (
          if k == j && expire_fits (pos (suc n))
          then set_ttl (some (suc n * 1000)) (item k db)
          else item j db)
  pub item-persist :
      (k : Text) (db : Db) (j : Text)
      → item j (persist k db) ≡ (if k == j then set_ttl none (item k db) else item j db)
  pub item-del :
      (k : Text) (db : Db) (j : Text) → item j (del k db) ≡ (if k == j then none else item j db)
