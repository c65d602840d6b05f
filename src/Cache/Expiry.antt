-- ===== src/Cache/Expiry.antt =====
-- What is read from a cache after a write.
use ai_researcher_agent_loca.Prelude.{
  ◌+◌, ◌<◌, String, false, not, ◌&&◌, Option, none, some, List, ◌≡◌, ◌≢◌, refl, arith, inl, inr,
  ltb, ◌==◌, str_eq, eq_iff, eq_refl, if◌then◌else◌, Bool-cases, Option-cases, ◌∙◌, ap, sym,
}
use ai_researcher_agent_loca.Prelude.Assoc.{get_entry, get_entry-put_entry, get_entry-drop_entry}
use ai_researcher_agent_loca.Job.{Time}
use ai_researcher_agent_loca.Cache.{CacheRow, Json, get, put, delete}

-- What a row reads as.
abbrev read : {V : Type 0} → Json V → (now : Time) → Option CacheRow → Option V
read json now none = none
read json now (some row) =
    if not (row.expires == 0) && ltb row.expires now then none else json.loads row.v

get-read :
    {V : Type 0} (json : Json V) (now : Time) (key : String) (rows : List (String × CacheRow))
    → (get json now key rows).0 ≡ read json now (get_entry key rows)
unfolding get
get-read json now key rows = elim (Option-cases (get_entry key rows)) [
  | inl e ↦ rw (e, get) refl
  | inr (row, e) ↦ elim (Bool-cases (not (row.expires == 0) && ltb row.expires now)) [
    | inl over ↦ rw (e, over, get) refl
    | inr lasting ↦ elim (Option-cases (json.loads row.v)) [
      | inl broken ↦ rw (e, lasting, broken, get) refl
      | inr (value, parsed) ↦ rw (e, lasting, parsed, get) refl
    ]
  ]
]

same_read :
    {V : Type 0} (json : Json V) (now : Time) (key : String) (left right : List (String × CacheRow))
    → get_entry key left ≡ get_entry key right
    → (get json now key left).0 ≡ (get json now key right).0
same_read json now key left right e =
    get-read json now key left ∙ (ap (read json now) e ∙ sym (get-read json now key right))

module _ {V : Type 0} (json : Json V) (key : String) (value : V) (ttl written : Time)
    (rows : List (String × CacheRow)) where
  -- A value that JSON carries over is read back until its lifetime is over, and from then on the
  -- key reads as missing, if the time of writing is positive.
  pub get-put :
      (now : Time)
      → json.loads (json.dumps value) ≡ some value
      → 0 < written
      → (get json now key (put json written key value ttl rows)).0
        ≡ (if ltb (written + ttl) now then none else some value)
  unfolding put
  get-put now carries positive =
      let row : CacheRow = record { v = json.dumps value; expires = written + ttl } in
      let found : get_entry key (put json written key value ttl rows) ≡ some row =
        rw (get_entry-put_entry key key row rows, eq_refl key) refl in
      let lasting : ((written + ttl) == 0) ≡ false = ground arith in
      let as_read : (get json now key (put json written key value ttl rows)).0
          ≡ read json now (some row) =
        rw (get-read json now key (put json written key value ttl rows), found) refl in
      as_read ∙ (rw (lasting, carries) refl)

  -- Writing or deleting one key leaves what is read under another as it was.
  pub get-other :
      (now : Time) (other : String)
      → key ≢ other
      → ((get json now other (put json written key value ttl rows)).0 ≡ (get json now other rows).0)
        × ((get json now other (delete key rows)).0 ≡ (get json now other rows).0)
  unfolding put delete
  get-other now other apart =
      let row : CacheRow = record { v = json.dumps value; expires = written + ttl } in
      let differ : str_eq key other ≡ false = ground (arith, eq_iff key other) in
      let after_put : get_entry other (put json written key value ttl rows) ≡ get_entry other rows =
        rw (get_entry-put_entry key other row rows, differ) refl in
      let after_delete : get_entry other (delete key rows) ≡ get_entry other rows =
        rw (get_entry-drop_entry key other rows, differ) refl in
      (
        same_read json now other (put json written key value ttl rows) rows after_put,
        same_read json now other (delete key rows) rows after_delete,
      )
