-- ===== src/Operations/Examples.antt =====
-- An account with one report waiting, and a guest with another.
use next_explorer.Prelude.{
  ◌≡◌, ◌≤◌, ◌⊎◌, refl, not, List, [], ◌∷◌, ◌++◌, none, some, codes, length, filter,
}
use next_explorer.Operations.Owners.{Owner, user, guest, owner_of, same_owner}
use next_explorer.Operations.News.{
  done, Report, Task, State, max_untold_per_owner, mine, keep_untold, report_of,
}
use next_explorer.Operations.NewsLaws.{keep_untold-mine}

abbrev ann : Owner
ann = record { kind = user; id = codes "7" }

abbrev visitor : Owner
visitor = record { kind = guest; id = codes "7" }

signed_in :
    owner_of (record { user_id = some (codes "7"); guest_session_id = some (codes "9") }) ≡ some ann
unfolding owner_of
signed_in = refl

nobody : owner_of (record { user_id = some []; guest_session_id = none }) ≡ none
unfolding owner_of
nobody = refl

abbrev copied : Task
copied = record {
  id = codes "t2";
  kind = codes "copy";
  owner = some ann;
  share_id = none;
  destination = codes "Docs";
  label = none;
  item_names = codes "a" ∷ codes "b" ∷ [];
  started_at = 100;
  completed_items = 2;
  finished_at = 200;
}

abbrev moved : Task
moved = record copied { id = codes "t3"; owner = some visitor; share_id = some (codes "s1") }

abbrev waiting : State
waiting = record { untold = report_of moved done ∷ []; journal = codes "t3" ∷ [] }

keep_untold-mine_example :
    (gone : List Report) × (rest : List Report) × (filter (mine (some ann) none) waiting.untold
      ≡ gone ++ rest)
    × (filter (mine (some ann) none) (keep_untold waiting copied done).untold
        ≡ rest ++ report_of copied done ∷ [])
    × (length (filter (mine (some ann) none) (keep_untold waiting copied done).untold)
        ≤ max_untold_per_owner)
    × ((gone ≡ [])
        ⊎ (length (filter (mine (some ann) none) (keep_untold waiting copied done).untold)
            ≡ max_untold_per_owner))
    × (filter (λ r. not (mine (some ann) none r)) (keep_untold waiting copied done).untold
        ≡ filter (λ r. not (mine (some ann) none r)) waiting.untold)
unfolding same_owner
keep_untold-mine_example = keep_untold-mine waiting copied done refl
