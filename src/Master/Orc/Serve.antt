-- ===== src/Master/Orc/Serve.antt =====
-- The replies of the ORC assigner to a series of requests, against the queue of the blocks.
use husky_kylin.Prelude.{
  ℕ, ◌+◌, ◌≡◌, ◌≢◌, ap, inl, inr, refl, true, some, List, [], ◌∷◌, Text, Bool-cases, Option-cases,
  ◌∙◌, ◌==◌,
}
use husky_kylin.Collections.All.{All}
use husky_kylin.Collections.Dict.{
  lookup, put, at_or, lookup-put_self, lookup-put_other, at_or-put_self, at_or-put_other,
  at_or-erase_self, at_or-erase_other,
}
use husky_kylin.Master.Orc.{OrcFileDesc, OrcBlockAssigner, back, advance, hand_out, finish_worker}
use husky_kylin.Master.Orc.Schedule.{schedule, HasRoom, front, rest, advance-IsTaken}

-- A connected assigner that has looked at the url and has these blocks of it left.
pub record IsServing (url : Text) (s : OrcBlockAssigner) (queue : List (Text × ℕ)) : Type 0 where
  pub connected : s.connected ≡ true
  pub looked : (n : ℕ) × (lookup url s.finish_dict ≡ some n)
  pub left : schedule (at_or [] url s.files_dict) ≡ queue
  pub room : All HasRoom (at_or [] url s.files_dict)

module _ (url : Text) (s : OrcBlockAssigner) where
  finish_worker-empty : at_or [] url (finish_worker url s).files_dict ≡ []
  unfolding finish_worker
  finish_worker-empty = elim (Bool-cases ((at_or 0 url s.finish_dict + 1) == s.num_workers_alive)) [
    | inl done ↦ rw done (at_or-erase_self [] url (put url [] s.files_dict))
    | inr more ↦ rw more (at_or-put_self [] url [] s.files_dict)
  ]

  finish_worker-IsServing : s.connected ≡ true → IsServing url (finish_worker url s) []
  unfolding finish_worker
  finish_worker-IsServing c = record {
    connected = c;
    looked = (
      at_or 0 url s.finish_dict + 1,
      lookup-put_self url (at_or 0 url s.finish_dict + 1) s.finish_dict,
    );
    left = rw finish_worker-empty refl;
    room = rw finish_worker-empty tt;
  }

  finish_worker-other :
      (i : Text) → i ≢ url → at_or [] i (finish_worker url s).files_dict ≡ at_or [] i s.files_dict
  unfolding finish_worker
  finish_worker-other i ne =
      let kept = at_or-put_other [] i url [] s.files_dict ne in
      elim (Bool-cases ((at_or 0 url s.finish_dict + 1) == s.num_workers_alive)) [
        | inl done ↦ rw done (at_or-erase_other [] i url (put url [] s.files_dict) ne ∙ kept)
        | inr more ↦ rw more kept
      ]

finish_worker-looked :
    (url : Text) (s : OrcBlockAssigner) (i : Text)
    → i ≢ url
    → lookup i (finish_worker url s).finish_dict ≡ lookup i s.finish_dict
unfolding finish_worker
finish_worker-looked url s i ne =
    lookup-put_other i url (at_or 0 url s.finish_dict + 1) s.finish_dict ne

put-IsServing :
    (url : Text) (s : OrcBlockAssigner) (files : List OrcFileDesc) (n : ℕ)
    → s.connected ≡ true
    → lookup url s.finish_dict ≡ some n
    → All HasRoom files
    → IsServing url (record s { files_dict = put url files s.files_dict }) (schedule files)
put-IsServing url s files n c looked room = record {
  connected = c;
  looked = (n, looked);
  left = ap schedule (at_or-put_self [] url files s.files_dict);
  room = rw (at_or-put_self [] url files s.files_dict) room;
}

-- A request takes the front of the queue.
pub hand_out_self :
    (url : Text) (s : OrcBlockAssigner) (files : List OrcFileDesc) (n : ℕ)
    → s.connected ≡ true
    → lookup url s.finish_dict ≡ some n
    → All HasRoom files
    → ((hand_out url s files).0 ≡ front (schedule files))
      × IsServing url (hand_out url s files).1 (rest (schedule files))
unfolding hand_out back finish_worker
hand_out_self url s [] n c looked room = (refl, finish_worker-IsServing url s c)
hand_out_self url s (f ∷ fs) n c looked room =
    let (last, e, t) = advance-IsTaken f fs room in
    rw (hand_out, e, t.taken) (refl, put-IsServing url s (advance (f ∷ fs) last) n c looked t.room)

-- What a request for another url leaves alone.
pub record IsKept (url : Text) (s t : OrcBlockAssigner) : Type 0 where
  pub connected : t.connected ≡ s.connected
  pub looked : lookup url t.finish_dict ≡ lookup url s.finish_dict
  pub files : at_or [] url t.files_dict ≡ at_or [] url s.files_dict

pub hand_out-IsKept :
    (url other : Text) (s : OrcBlockAssigner) (files : List OrcFileDesc)
    → url ≢ other
    → IsKept url s (hand_out other s files).1
unfolding hand_out finish_worker
hand_out-IsKept url other s files ne = elim (Option-cases (back files)) [
  | inl e ↦
      rw (hand_out, e)
        (record {
          connected = refl;
          looked = finish_worker-looked other s url ne;
          files = finish_worker-other other s url ne;
        })
  | inr (file, e) ↦
      rw (hand_out, e)
        (record {
          connected = refl;
          looked = refl;
          files = at_or-put_other [] url other (advance files file) s.files_dict ne;
        })
]
