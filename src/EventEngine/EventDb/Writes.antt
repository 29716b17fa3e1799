-- ===== src/EventEngine/EventDb/Writes.antt =====
-- What the queries find of an event that has been written.
use mathlib.Core.List.{Memᴰ}
use mathlib.Core.Path.{subst}
use ligp_v.Prelude.{
  string_less, ◌≡◌, refl, ap, sym, ◌∙◌, Bool, true, Option, none, some, List, [], arith,
  if◌then◌else◌, String, contains, string_eq, ◌==◌, not, ◌&&◌, ◌↔◌, or_default,
}
use ligp_v.Dict.{get, put, values, get-put, get-put_self}
use ligp_v.EventEngine.EventDb.{
  Codec, Event, Row, Stamp, Table, returned, to_row, from_row, merged, upsert, active, rows_where,
  iso, get_active_events, get_by_tag, sorted,
}
use ligp_v.EventEngine.EventDb.Tags.{contains-sorted, values-get, rows_where-keeps, rows_where-only}

module _ {J W : Type 0} where
  -- The row that a write leaves.
  abbrev pub written : Row J W → Table J W → Row J W
  written row db = merged (get row.event_id db) row

module _ {D J W : Type 0} (c : Codec D J W) where
  -- A query finds a row that is in the table exactly if the test holds of it, for tests that see no
  -- more of a row than what is read of it.
  found_iff :
      (test : Row J W → Bool) (see : Row (List String) W → Bool) (db : Table J W) (k : String)
      (row : Row J W)
      → ((r : Row J W) → test r ≡ see (from_row c r))
      → get k db ≡ some row
      → Memᴰ (from_row c row) (rows_where c test (values db)) ↔ (test row ≡ true)
  found_iff test see db k row same at = (
    λ m.
        let (r, n, h, this) = rows_where-only c test (values db) (from_row c row) m in
        same row ∙ ap see this ∙ sym (same r) ∙ h,
    λ h. rows_where-keeps c test (values db) row (values-get db k row at) h,
  )

  tags-to_row :
      (uuid now : String) (event : Event D W) (row : Row J W)
      → to_row c uuid now event ≡ returned row
      → row.tags ≡ c.dumps (sorted (or_default event.tags []))
  unfolding to_row
  tags-to_row uuid now event row h = ground arith

  active-merged :
      (old : Option (Row J W)) (row : Row J W) (at : String)
      → active at (merged old row)
        ≡ (not (string_less at row.start_date) && not (string_less row.end_date at))
  unfolding merged active
  active-merged none row at = refl
  active-merged (some x) row at = refl

  tags-merged : (old : Option (Row J W)) (row : Row J W) → (merged old row).tags ≡ row.tags
  unfolding merged
  tags-merged none row = refl
  tags-merged (some x) row = refl

  tagged :
      (uuid now : String) (event : Event D W) (row : Row J W) (old : Option (Row J W))
      (tag : String)
      → ((xs : List String) → c.loads (c.dumps xs) ≡ xs)
      → to_row c uuid now event ≡ returned row
      → contains (c.loads (merged old row).tags) tag ≡ contains (or_default event.tags []) tag
  tagged uuid now event row old tag law made =
      ap (λ t. contains (c.loads t) tag) (tags-merged old row ∙ tags-to_row uuid now event row made)
      ∙ ap (λ t. contains t tag) (law (sorted (or_default event.tags [])))
      ∙ contains-sorted (or_default event.tags []) tag

  sees_dates :
      (at : String) (r : Row J W)
      → active at r ≡ (
          not (string_less at (from_row c r).start_date)
          && not (string_less (from_row c r).end_date at))
  unfolding active from_row
  sees_dates at r = refl

  upsert-row :
      (uuid now : String) (event : Event D W) (row : Row J W) (db : Table J W)
      → to_row c uuid now event ≡ returned row
      → upsert c uuid now event db ≡ returned (put row.event_id (written row db) db, row.event_id)
  unfolding upsert
  upsert-row uuid now event row db made = ground arith

  sees_tags :
      (tag : String) (r : Row J W)
      → contains (c.loads r.tags) tag ≡ contains (from_row c r).tags tag
  unfolding from_row
  sees_tags tag r = refl

  -- If reading the tags undoes writing them and the event makes a row, `upsert` leaves that row under
  -- its id, with the time of creation of the row that was there, and no other row changes. In
  -- the table that it leaves, the event is active at a time exactly if the text of that time is not
  -- before the text of its start and not after that of its end, in the order of texts; and it is
  -- found by exactly its tags.
  pub upsert_lem :
      (uuid now : String) (event : Event D W) (row : Row J W) (db : Table J W)
      → ((xs : List String) → c.loads (c.dumps xs) ≡ xs)
      → to_row c uuid now event ≡ returned row
      → (after : Table J W) × (upsert c uuid now event db ≡ returned (after, row.event_id))
        × ((k : String)
            → get k after ≡ (if row.event_id == k then some (written row db) else get k db))
        × ((at : Stamp D)
            → Memᴰ (from_row c (written row db)) (get_active_events c at after) ↔ (
                (not (string_less (iso c at) row.start_date)
                  && not (string_less row.end_date (iso c at)))
                ≡ true))
        × ((tag : String)
            → Memᴰ (from_row c (written row db)) (get_by_tag c tag after)
              ↔ (contains (or_default event.tags []) tag ≡ true))
  unfolding get_active_events get_by_tag
  upsert_lem uuid now event row db law made =
      let new : Row J W = written row db in
      let after : Table J W = put row.event_id new db in
      let there : get row.event_id after ≡ some new = get-put_self row.event_id new db in
      (
        after,
        upsert-row uuid now event row db made,
        λ k. get-put row.event_id k new db,
        λ at.
            subst
              (λ b.
                Memᴰ (from_row c new) (rows_where c (active (iso c at)) (values after))
                ↔ (b ≡ true))
              (active-merged (get row.event_id db) row (iso c at))
              (found_iff (active (iso c at))
                (λ r.
                  not (string_less (iso c at) r.start_date)
                  && not (string_less r.end_date (iso c at)))
                after row.event_id new (sees_dates (iso c at)) there),
        λ tag.
            subst
              (λ b.
                Memᴰ (from_row c new)
                  (rows_where c (λ r. contains (c.loads r.tags) tag) (values after))
                ↔ (b ≡ true))
              (tagged uuid now event row (get row.event_id db) tag law made)
              (found_iff (λ r. contains (c.loads r.tags) tag) (λ r. contains r.tags tag) after
                row.event_id new (sees_tags tag) there),
      )
