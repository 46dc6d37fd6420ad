-- ===== src/Redis/Memory.antt =====
-- A server that keeps the items themselves: the laws of the interface can be met.
use ggskit.Common.{
  ℕ, zero, suc, ◌*◌, ◌^◌, ◌≡◌, refl, Bool, true, false, ◌&&◌, Option, none, some, arith, ltb,
  if◌then◌else◌, Text, ◌==◌, nat_eq, text_eq, Map, ok, err,
}
use ggskit.Common.Int.{ℤ, pos, negsuc}
use ggskit.Strconv.{format_int, parse_int}
use ggskit.Redis.{
  Item, Redis, type_of, fields_of, text_of, pttl_of, takes_fields, takes_entries, set_fields,
  add_entry, set_ttl, increment_of, set_increment,
}

abbrev pub store_at : Text → Option Item → Map Text Item → Map Text Item
store_at k o db j = if k == j then o else db j

abbrev pub guarded : Bool → Text → Option Item → Map Text Item → Map Text Item × Bool
guarded true k o db = (store_at k o db, true)
guarded false k o db = (db, false)

abbrev pub set_expiry : Text → ℤ → Map Text Item → Map Text Item × Bool
set_expiry k (pos zero) db = (store_at k none db, true)
set_expiry k (pos (suc n)) db =
    guarded (ltb (suc n) (2 ^ 32)) k (set_ttl (some (suc n * 1000)) (db k)) db
set_expiry k (negsuc n) db = (store_at k none db, true)

abbrev pub fits : ℤ → Bool
fits (pos n) = ltb n (2 ^ 32)
fits (negsuc n) = true

pub guarded_item :
    (b : Bool) (k : Text) (o : Option Item) (db : Map Text Item) (j : Text)
    → (guarded b k o db).0 j ≡ (if k == j && b then o else db j)
guarded_item b k o db j = ground arith

pub guarded_reply :
    (b : Bool) (k : Text) (o : Option Item) (db : Map Text Item) → (guarded b k o db).1 ≡ b
guarded_reply b k o db = ground arith

pub set_expiry_reply :
    (k : Text) (n : ℕ) (db : Map Text Item) → (set_expiry k (pos n) db).1 ≡ fits (pos n)
set_expiry_reply k zero db = refl
set_expiry_reply k (suc n) db = guarded_reply _ k _ db

abbrev pub number : Text → Option ℤ
number t = elim (parse_int t) [ ok z ↦ some z | err e ↦ none ]

abbrev pub memory : (Text → Option (Map Text Text)) → Redis
memory decode = record {
  Db = Map Text Item;
  type_key = λ k db. type_of (db k);
  get = λ k db. text_of (db k);
  hget = λ k f db. fields_of (db k) f;
  pttl = λ k db. pttl_of (db k);
  hset = λ k fs db. guarded (takes_fields (db k)) k (set_fields fs (db k)) db;
  hincrby = λ k f n db.
      (store_at k (set_increment f (increment_of (db k) f n) (db k)) db, increment_of (db k) f n);
  xadd = λ k m fs db. guarded (takes_entries (db k)) k (add_entry fs (db k)) db;
  expire = set_expiry;
  persist = λ k db. store_at k (set_ttl none (db k)) db;
  del = λ k db. store_at k none db;
  tonumber = number;
  number_text = format_int;
  cjson_decode = decode;
  expire_fits = fits;
  item = λ k db. db k;
  type_key-item = λ k db. refl;
  get-item = λ k db. refl;
  hget-item = λ k f db. refl;
  pttl-item = λ k db. refl;
  hset_reply = λ k fs db. guarded_reply _ k _ db;
  item-hset = λ k fs db j. guarded_item _ k _ db j;
  hincrby_reply = λ k f n db. refl;
  item-hincrby = λ k f n db j. refl;
  xadd_reply = λ k m fs db. guarded_reply _ k _ db;
  item-xadd = λ k m fs db j. guarded_item _ k _ db j;
  expire_reply = set_expiry_reply;
  item-expire = λ k n db j. guarded_item _ k _ db j;
  item-persist = λ k db j. refl;
  item-del = λ k db j. refl;
}
