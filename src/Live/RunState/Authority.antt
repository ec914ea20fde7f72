-- ===== src/Live/RunState/Authority.antt =====
-- proberca/live/run_state.py: what the two stores promise, said without their encodings: who holds
-- the run, and what is committed.
use probe_rca.Prelude.{ℕ, ◌+◌, ◌≤◌, ◌≡◌, refl, String, Option, some, arith}
use probe_rca.Live.RunState.Record.{LeaseRunStateRecord, Hashes}
use probe_rca.Live.RunState.Validity.{IsValid, validated-signed, committed-names}

pub record Authority : Type 0 where
  pub leadership_epoch : ℕ
  pub holder_fingerprint : Option String
  pub committed_sequence : ℕ
  pub current_generation_id : Option String

unfoldable pub authority : LeaseRunStateRecord → Authority
authority r = record {
  leadership_epoch = r.leadership_epoch;
  holder_fingerprint = r.holder_fingerprint;
  committed_sequence = r.committed_sequence;
  current_generation_id = r.current_generation_id;
}

-- A holder takes over in the next epoch, or takes the run again in its own; or the next generation
-- is committed, with the epoch and the holder that its record names.
pub data Step (a : Authority) : Authority → Type 0 where
  stays : Step a a
  takes :
      (holder : String) (epoch : ℕ)
      → a.leadership_epoch ≤ epoch
      → epoch ≤ a.leadership_epoch + 1
      → Step a (record a { leadership_epoch = epoch; holder_fingerprint = some holder })
  commits :
      (holder generation : String) (epoch : ℕ)
      → Step a (record {
        leadership_epoch = epoch;
        holder_fingerprint = some holder;
        committed_sequence = a.committed_sequence + 1;
        current_generation_id = some generation;
      })

pub data Reach (a : Authority) : Authority → Type 0 where
  here : Reach a a
  next : {b c : Authority} → Reach a b → Step b c → Reach a c

-- What later authorities keep of an earlier one: the sequence does not go back, and as long as it
-- is the same, so is its generation.
pub record Keeps (a b : Authority) : Type 0 where
  pub no_regress : a.committed_sequence ≤ b.committed_sequence
  pub same_generation :
      a.committed_sequence ≡ b.committed_sequence
      → a.current_generation_id ≡ b.current_generation_id

Step-Keeps : (a : Authority) {b c : Authority} → Keeps a b → Step b c → Keeps a c
Step-Keeps a k stays = k
Step-Keeps a k (takes holder epoch up one) = record {
  no_regress = k.no_regress;
  same_generation = k.same_generation;
}
Step-Keeps a k (commits holder generation epoch) = record {
  no_regress = ground (arith, k.no_regress);
  same_generation = λ p. ground (arith, k.no_regress);
}

pub Reach-Keeps : {a b : Authority} → Reach a b → Keeps a b
Reach-Keeps here = record { no_regress = omega arith; same_generation = λ p. refl }
Reach-Keeps {a} (next r st) = Step-Keeps a (Reach-Keeps r) st

-- A valid record of the next sequence is a commit.
pub valid_next-Step :
    (h : Hashes) (r v : LeaseRunStateRecord)
    → IsValid h v
    → v.committed_sequence ≡ r.committed_sequence + 1
    → Step (authority r) (authority v)
unfolding authority
valid_next-Step h r v valid follows =
    let (checked, _) = validated-signed h v v valid in
    let (holder, generation, held, named) = committed-names h v.payload checked (ground arith) in
    rw (held, named, follows) (commits holder generation v.leadership_epoch)
