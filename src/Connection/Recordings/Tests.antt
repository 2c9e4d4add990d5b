-- ===== src/Connection/Recordings/Tests.antt =====
-- src/recorder.rs with src/connection.rs: the theorems on recording threads, at concrete inputs.
use discord_ext_audiorec.Prelude.{
  ℕ, ◌≤◌, List, [], ◌∷◌, replicate, true, false, get_elem?, some, ◌≡◌, refl, arith,
}
use discord_ext_audiorec.Prelude.Results.{ok, err, Build}
use discord_ext_audiorec.State.{recording}
use discord_ext_audiorec.Payload.Mode.{xsalsa20_poly1305_lite}
use discord_ext_audiorec.Payload.SampleCipher.{sample_cipher}
use discord_ext_audiorec.Gateway.Session.Sample.{quiet_error}
use discord_ext_audiorec.Recorder.Receive.{Decryption, Ending}
use discord_ext_audiorec.Connection.{VoiceConnection, records, stops_record, plays}
use discord_ext_audiorec.Connection.Recordings.{
  at_test, in_recv, over, Recording, Recordings, Event, own, acts, run,
}
use discord_ext_audiorec.Connection.Recordings.Rounds.{count}
use discord_ext_audiorec.Connection.Recordings.Quiet.{stop_record-ends}
use discord_ext_audiorec.Connection.Recordings.Again.{IsDivided, record-again}

abbrev release : Build
release = record { overflow_checks = false; debug_log = false }

abbrev decoder : Decryption
decoder = record { cipher = sample_cipher; encryption = xsalsa20_poly1305_lite }

abbrev connection : VoiceConnection
connection = record { state = recording; player = true; recorder = true }

abbrev listening : Recording ℕ
listening = record { stage = at_test decoder; queues = [] }

abbrev system : Recordings ℕ
system = record { connection = connection; threads = listening ∷ listening ∷ [] }

-- The newer thread and a new player take turns with the older thread.
abbrev turns : List (Event ℕ)
turns =
    own 1 (ok []) 1
    ∷ own 0 (ok []) 2
    ∷ own 1 (err quiet_error) 3
    ∷ acts (plays true) (ok decoder)
    ∷ own 1 (ok []) 4
    ∷ []

stop_record-ends_example :
    (r' : Recording ℕ) × (get_elem?
        (run release (acts stops_record (ok decoder) ∷ turns) system).threads
        1
      ≡ some r')
    × ((e : Ending) × (r'.stage ≡ over e))
    × (count r'.queues ≤ 1)
stop_record-ends_example =
    stop_record-ends release (ok decoder) turns system 1 listening refl
      (tt, (tt, (tt, (λ e. cc, (tt, tt))))) (omega arith)

abbrev in_wait : Recording ℕ
in_wait = record { stage = in_recv true decoder; queues = [] }

abbrev report : List ℕ
report = 128 ∷ 200 ∷ replicate 8 0

-- The older thread hears a report, the newer one another, and then the older one a short datagram.
abbrev heard : List (Event ℕ)
heard =
    own 1 (ok report) 5
    ∷ own 0 (ok []) 6
    ∷ own 0 (ok report) 7
    ∷ own 1 (ok []) 8
    ∷ own 1 (ok (1 ∷ 2 ∷ [])) 9
    ∷ []

record-again_example : IsDivided release decoder decoder [] heard (
    run release
      (acts records (ok decoder) ∷ heard)
      (record { connection = connection; threads = in_wait ∷ [] }))
record-again_example =
    record-again release decoder decoder [] heard connection [] (tt, (tt, (tt, (tt, (tt, tt)))))
