-- ===== src/Downloads/Examples.antt =====
-- A selection of two files with one name, downloaded by an account.
use next_explorer.Prelude.{
  ℕ, suc, ◌+◌, ◌≤◌, ◌≡◌, refl, ◌&&◌, List, [], ◌∷◌, map, none, some, arith, Text, codes, leb,
  length, if◌then◌else◌,
}
use next_explorer.Downloads.Names.{File, with_distinct_names}
use next_explorer.Downloads.Plans.{
  Plan, Selection, max_plans, read_plan, create_plan, owner_key_for,
}
use next_explorer.Downloads.Kept.{IsRead}
use next_explorer.Downloads.Runs.{Event, creates, reads, run, MadeIn, read_plan-MadeIn, length-run}

abbrev small : ℕ → ℕ
small c = if leb 65 c && leb c 90 then c + 32 else c

abbrev lower : Text → Text
lower text = map small text

abbrev named : Text → File
named name = record { name = name; path = codes "Docs" }

abbrev notes : List File
notes =
    named (codes "notes.txt")
    ∷ named (codes "Notes.TXT")
    ∷ named (codes ".env")
    ∷ named (codes ".env")
    ∷ []

names-notes :
    map (λ f. f.name) (with_distinct_names lower notes)
    ≡ codes "notes.txt" ∷ codes "Notes (1).TXT" ∷ codes ".env" ∷ codes ".env (1)" ∷ []
unfolding with_distinct_names
names-notes = refl

-- A name that is numbered is not compared with the names that come after it.
names-clash :
    map
      (λ f. f.name)
      (with_distinct_names lower
        (named (codes "a.txt") ∷ named (codes "a.txt") ∷ named (codes "a (1).txt") ∷ []))
    ≡ codes "a.txt" ∷ codes "a (1).txt" ∷ codes "a (1).txt" ∷ []
unfolding with_distinct_names
names-clash = refl

owner-guest : owner_key_for (some (codes "7")) (some (codes "9")) ≡ some (codes "guest:7")
unfolding owner_key_for
owner-guest = refl

abbrev selection : Selection
selection = record { base_path = codes "Docs"; files = notes; archive = none }

abbrev events : List Event
events =
    creates (codes "t1") 1000 (codes "user:7") selection
    ∷ reads (codes "t1") (codes "user:8") 2000
    ∷ reads (codes "t1") (codes "user:7") 500_000
    ∷ []

abbrev given_plan : Plan
given_plan = record {
  owner_key = codes "user:7";
  base_path = codes "Docs";
  files = with_distinct_names lower notes;
  archive = none;
  created_at = 1000;
  last_used_at = 1_000_000;
}

read_plan-MadeIn_example :
    IsRead (codes "t1") (codes "user:7") 1_000_000 (run lower events []) given_plan
    × MadeIn lower events (codes "t1") given_plan
unfolding create_plan read_plan
read_plan-MadeIn_example =
    read_plan-MadeIn lower events (codes "t1") (codes "user:7") 1_000_000 given_plan refl

length-run_example : length (run lower events []) ≤ suc max_plans
length-run_example = length-run lower events [] (omega arith)
