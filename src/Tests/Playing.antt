-- ===== src/Tests/Playing.antt =====
-- Runs of the choice of a video.
use homeassistant_local_voic.Base.{◌≡◌, refl, true, false, some, List, [], ◌∷◌}
use homeassistant_local_voic.Base.Text.{codes}
use homeassistant_local_voic.Youtube.{Item, Video, Kind, videos, find_long, pick_from_search}

abbrev clip : Video
clip = record {
  id = codes "a";
  title = codes "clip";
  channel = codes "c";
  duration_secs = some 200;
  live = false;
  upcoming = false;
  short = false;
}

abbrev long_mix : Video
long_mix = record clip { id = codes "b"; duration_secs = some 4000 }

abbrev results : List Item
results = Item.video clip ∷ Item.video long_mix ∷ []

a_genre_takes_the_mix : pick_from_search results true ≡ some (Kind.mix, long_mix)
unfolding pick_from_search videos find_long
a_genre_takes_the_mix = refl
