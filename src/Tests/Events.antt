-- ===== src/Tests/Events.antt =====
-- An event over whole numbers, with lists for JSON texts.
use mathlib.Core.List.{Memᴰ}
use ligp_v.Prelude.{
  string_less, ℕ, ◌≡◌, ◌↔◌, refl, not, ◌&&◌, true, none, some, List, [], ◌∷◌, String, contains,
  string_eq, ◌==◌, if◌then◌else◌,
}
use ligp_v.Dict.{get}
use ligp_v.EventEngine.EventDb.{
  Codec, Event, Row, Stamp, Table, returned, to_row, from_row, upsert, iso, get_active_events,
  get_by_tag, sorted, insert_tag, other,
}
use ligp_v.EventEngine.EventDb.Writes.{written, upsert_lem}

abbrev codec : Codec String (List String) ℕ
codec = record { isoformat = λ d. d; dumps = λ xs. xs; loads = λ xs. xs; unit = 1 }

abbrev event : Event String ℕ
event = record {
  event_id = some "e";
  name = some "fair";
  start_date = some (other "2026-01-01");
  end_date = some (other "2026-01-31");
  type = none;
  tags = some ("b" ∷ "a" ∷ []);
  boost_multiplier = some 2;
  created_at = none;
}

abbrev row : Row (List String) ℕ
row = record {
  event_id = "e";
  name = "fair";
  start_date = "2026-01-01";
  end_date = "2026-01-31";
  type = "trending";
  tags = "a" ∷ "b" ∷ [];
  boost_multiplier = 2;
  created_at = "t";
}

made : to_row codec "u" "t" event ≡ returned row
unfolding to_row iso sorted insert_tag
made = refl

upsert_lem_example :
    (after : Table (List String) ℕ) × (upsert codec "u" "t" event [] ≡ returned (after, "e"))
    × ((k : String) → get k after ≡ (if "e" == k then some (written row []) else get k []))
    × ((at : Stamp String)
        → Memᴰ (from_row codec (written row [])) (get_active_events codec at after) ↔ (
            (not (string_less (iso codec at) "2026-01-01")
              && not (string_less "2026-01-31" (iso codec at)))
            ≡ true))
    × ((tag : String)
        → Memᴰ (from_row codec (written row [])) (get_by_tag codec tag after)
          ↔ (contains ("b" ∷ "a" ∷ []) tag ≡ true))
upsert_lem_example = upsert_lem codec "u" "t" event row [] (λ xs. refl) made
