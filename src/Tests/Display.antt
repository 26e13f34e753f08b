-- ===== src/Tests/Display.antt =====
-- Inputs for src/tft/xara_feed.py and src/tft/saver.py.
use kp4pra.Prelude.{drop}
use kp4pra.Feed.Frame.{masked}
use kp4pra.Feed.Frame.{length_bytes}
use kp4pra.Prelude.{take}
use kp4pra.Prelude.{
  ℕ, ◌+◌, ◌≤◌, ◌<◌, ◌≡◌, ◌≢◌, ◌⊎◌, refl, true, false, some, List, [], ◌∷◌, ◌++◌, Bytes, Text, codes,
  arith, length, last,
}
use kp4pra.Feed.Socket.{Conn}
use kp4pra.Feed.Frame.{client_frame, read_frame}
use kp4pra.Feed.Frame.RoundTrip.{Frames, read_frame-client_frame}
use kp4pra.Feed.State.{
  XaraState, new_state, Status, hello, status_of, host, host_disconnected, waterfall_rows,
}
use kp4pra.Feed.State.Window.{
  apply_rows, rows_of, apply_rows-eq-last, Event, message, got_row, link, drawn,
}
use kp4pra.Saver.{Dir, east, Centipede, moved, crawl, new_centipede, update, options, is_in}
use kp4pra.Saver.Crawl.{IsSnake, crawls, crawls-IsSnake}
use kp4pra.Saver.Updates.{crawl-avoids, update-near, opposite, OneOf}

abbrev ping_mask : Bytes
ping_mask = 17 ∷ 34 ∷ 51 ∷ 68 ∷ []

-- The frame in two chunks, cut inside its head.
abbrev cut : Conn
cut = record {
  buf = take 1 (client_frame 1 ping_mask (codes "hi"));
  chunks = drop 1 (client_frame 1 ping_mask (codes "hi")) ∷ codes "rest" ∷ [];
}

read_frame-client_frame_example : Frames 1 (codes "hi") (codes "rest") (read_frame cut)
unfolding client_frame length_bytes masked
read_frame-client_frame_example =
    read_frame-client_frame 1 ping_mask (codes "hi") (codes "rest") refl (omega arith) (omega arith)
      (omega arith) cut (omega arith) refl (refl, (refl, tt))

abbrev shown : XaraState ℕ
shown = new_state 130 5

abbrev frames : List Bytes
frames = (1 ∷ 0 ∷ 2 ∷ 0 ∷ 9 ∷ 8 ∷ []) ∷ (2 ∷ 0 ∷ 0 ∷ 0 ∷ []) ∷ []

apply_rows-eq-last_example :
    ((apply_rows frames shown).rows ≡ last waterfall_rows ([] ++ rows_of frames))
    × ((apply_rows frames shown).rows_seen ≡ 0 + length (rows_of frames))
apply_rows-eq-last_example = apply_rows-eq-last frames shown (omega arith)

abbrev linked : Status ℕ
linked = record {
  state = codes "Sending";
  peer = codes "KP4ABC";
  ptt = true;
  busy = false;
  bps = 1200;
  sn = some 12;
}

abbrev no_bpm : ℕ → Text
no_bpm n = []

abbrev events : List (Event ℕ)
events =
    message 1000 (hello (codes "FM wide"))
    ∷ message 2000 (status_of linked)
    ∷ got_row (1 ∷ 0 ∷ 1 ∷ 0 ∷ 7 ∷ [])
    ∷ drawn
    ∷ message 3000 (host host_disconnected)
    ∷ link false
    ∷ []

crawls-IsSnake_example :
    IsSnake (crawls (2 ∷ 0 ∷ 1 ∷ []) (new_centipede (codes "kp4abc-7") east (7, 3) 0))
crawls-IsSnake_example =
    crawls-IsSnake (codes "kp4abc-7") east (7, 3) 0 (2 ∷ 0 ∷ 1 ∷ []) (omega arith)

abbrev two_long : Centipede
two_long = record {
  word = codes "AB";
  dir = east;
  cells = (7, 3) ∷ (6, 3) ∷ [];
  prev = [];
  t_step = 0;
}

two_long-IsSnake : IsSnake two_long
unfolding moved
two_long-IsSnake = record {
  whole = refl;
  inside = (omega arith, (omega arith, tt));
  chain = ((east, refl), tt);
}

crawl-avoids_example :
    ((crawl 1 two_long).cells ≡ moved (crawl 1 two_long).dir (7, 3) ∷ (7, 3) ∷ [])
    × ((crawl 1 two_long).dir ≢ opposite east)
    × (((d : Dir) → OneOf d (options east) → is_in (moved d (7, 3)) [] ≡ true)
        ⊎ (is_in (moved (crawl 1 two_long).dir (7, 3)) [] ≡ false))
crawl-avoids_example = crawl-avoids 1 two_long (7, 3) ((6, 3) ∷ []) refl

abbrev picks : ℕ → ℕ
picks n = 0

update-near_example :
    ((update 1900 picks two_long).t_step ≤ 1900)
    × (1900 < (update 1900 picks two_long).t_step + 250)
update-near_example = update-near 1900 picks two_long (omega arith)
