-- ===== src/Tests/Race.antt =====
-- A search and an update that meet in the list.
use kwd_server.Base.{◌≡◌, refl, true}
use kwd_server.Cache.Race.{
  Race, quiet, tested, in_lists, in_update, Reach, here, then_by, finds_free, begins, marks, passes,
  is_tested, IsClash, Reach-Excludes, window-Clash,
}

abbrev in_test : Race
in_test = record quiet { searcher = tested }

in_test-Reach : Reach quiet in_test
in_test-Reach = then_by here (finds_free quiet refl refl)

window-Clash_example : (t : Race) × Reach in_test t × IsClash t
window-Clash_example = window-Clash in_test refl refl refl

abbrev met : Race
met = record {
  update = true;
  is_reading = true;
  searcher = in_lists;
  updater = in_update;
  in_window = true;
}

met-Reach : Reach quiet met
unfolding is_tested
met-Reach =
    then_by (then_by (then_by in_test-Reach (marks _ refl)) (passes _ refl refl)) (begins _ refl)

Reach-Excludes_example : met.in_window ≡ true
Reach-Excludes_example = Reach-Excludes met-Reach refl refl
