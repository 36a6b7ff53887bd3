-- ===== src/Tests/Tasks.antt =====
-- A request of process 42 through the tasks of the listener, up to the answer that waits.
use notifs_piper.Common.{ℕ, ◌≡◌, ◌+◌, inr, refl, some, [], ◌∷◌, ok}
use notifs_piper.Dbus.{push_job}
use notifs_piper.Listener.Processes.{lookup, remove}
use notifs_piper.Listener.{Listener, queue_job, answer, write_or_log}
use notifs_piper.Listener.Tasks.{
  Tasks, Turns, enter, push, reply, here, next, enter_process, in_flight, AllPatient,
}
use notifs_piper.Listener.Tasks.Waiting.{turns-answer}
use notifs_piper.Tests.Codec.{NoHints, codec}
use notifs_piper.Tests.Sockets.{gone, watched, question, told}

abbrev calm : Tasks NoHints
calm = record { listener = watched; entered = []; answers = [] }

abbrev waits : Listener NoHints
waits = enter_process 42 80 watched

abbrev entered : Tasks NoHints
entered = record { listener = waits; entered = question ∷ []; answers = [] }

abbrev queued : Listener NoHints
queued = record waits {
  channel = record waits.channel { queue = question ∷ []; signals = waits.channel.signals + 1 };
}

abbrev pushed : Tasks NoHints
pushed = record { listener = queued; entered = []; answers = [] }

abbrev replied : Tasks NoHints
replied = record {
  listener = record queued { channel = record queued.channel { queue = [] } };
  entered = [];
  answers = 42 ∷ [];
}

question-queued : queue_job question waits ≡ ok queued
unfolding push_job remove
question-queued = refl

abbrev question_turns : Turns codec gone calm replied
question_turns =
    next
      (next (next here (enter question 42 80 refl))
        (push [] [] question queued refl question-queued refl))
      (reply question [] refl refl)

question_turns-patient : AllPatient question_turns
question_turns-patient = (((tt, (refl, inr refl)), tt), tt)

turns-answer_example :
    ((stream : ℕ) × (lookup 42 replied.listener.active ≡ some stream)
      × (answer gone 42 told replied.listener
          ≡ ok (
              write_or_log gone stream told
                (record replied.listener { active = remove 42 replied.listener.active }))))
    × (in_flight 42 replied ≡ 1)
turns-answer_example =
    turns-answer question_turns [] [] 42 told (refl, refl, refl) question_turns-patient refl
      (λ e. cc)
