-- ===== src/Tests/Gzip.antt =====
-- src/gzip.rs
use http_serve.Base.{ℕ, ◌≡◌, some, [], ◌∷◌, codes, err, List, false}
use http_serve.Body.{ready}
use http_serve.Chunker.{Shared, Writer, live, done, poll_state}
use http_serve.Gzip.{Encoder, raw}
use http_serve.Gzip.Aborted.{Operation, writes, flushes, aborts, operate_all, abort_body-final}

-- An encoder that keeps what it gets; no call of it is made below.
abbrev silent : Encoder ℕ Writer
silent = record {
  encode = λ w level. w;
  write_encoded = λ g s buf. (g, record { shared = s; woken = []; result = done 0 });
  flush_encoded = λ g s. (g, record { shared = s; woken = []; result = done tt });
  drop_encoded = λ g s. (s, []);
  get_mut = λ g. g;
}

abbrev writer : Writer
writer = record { buf = codes "x"; capacity = 4; cap = 4 }

abbrev operations : List (Operation ℕ)
operations = aborts 7 ∷ writes (codes "more") ∷ flushes ∷ []

abbrev queued : Shared ℕ
queued = record { state = live (codes "abcd" ∷ []) 4 false; waker = some 3 }

abort_body-final_example :
    (poll_state
      (operate_all silent (λ n. n) operations (raw writer, queued)).1.state
      (operate_all silent (λ n. n) operations (raw writer, queued)).1.waker
      3).0
    ≡ ready (some (err 7))
abort_body-final_example =
    abort_body-final silent (λ n. n) writer (codes "abcd" ∷ []) 4 false (some 3) 7
      (writes (codes "more") ∷ flushes ∷ []) 3
