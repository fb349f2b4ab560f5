-- ===== src/Dec/Transparent/Stage.antt =====
-- How far `run_decoder` of raptorq/dec/src/main.rs is with the block at the cursor.
use live_video.Prelude.{
  ℕ, ◌+◌, ◌≤◌, ◌≡◌, Bool, true, false, List, [], ◌∷◌, ◌++◌, Option, none, some, u8,
}
use live_video.RaptorQ.{RaptorQ}
use live_video.Dec.Block.{BlockState}
use live_video.Dec.State.{Decoder}
use live_video.Dec.Transparent.{first_result}

-- The part of the state that decides what is emitted.
pub record View (D : Type 0) : Type 0 where
  pub pool : List (ℕ × BlockState D)
  pub cursor : ℕ
  pub highest_seen : ℕ
  pub started : Bool
  pub out : List (List ℕ)

abbrev pub view : {D : Type 0} → Decoder D → View D
view d = record {
  pool = d.pool;
  cursor = d.cursor;
  highest_seen = d.highest_seen;
  started = d.started;
  out = d.out;
}

-- The loop rests before block `n`, and nothing of it has come in.
pub record IsEmpty {D : Type 0} (n : ℕ) (outs : List (List ℕ)) (v : View D) : Type 0 where
  pub pool : v.pool ≡ []
  pub cursor : v.cursor ≡ n
  pub low : v.highest_seen ≤ n
  pub high : n ≤ v.highest_seen + 1
  pub first : v.started ≡ false → n ≡ 0
  pub out : v.out ≡ outs

-- Block `n` is the only one in the pool, and is not complete.
pub record IsOpen {D : Type 0} (base n : ℕ) (outs : List (List ℕ)) (b : BlockState D) (v : View D)
    : Type 0 where
  pub pool : v.pool ≡ (n, b) ∷ []
  pub cursor : v.cursor ≡ n
  pub highest_seen : v.highest_seen ≡ n
  pub started : v.started ≡ true
  pub out : v.out ≡ outs
  pub unfinished : b.completed ≡ none
  pub stamped : base ≤ b.first_seen

module _ (q : RaptorQ) (oti : q.Oti) (base n : ℕ) (want : Option (List ℕ))
    (outs : List (List ℕ)) where
  open q use {Packet, BlockDecoder, transfer_length, new_decoder}

  -- Before the block, in it, or behind it, when the crate's decoder makes `want` of the packets
  -- that are to come.
  pub data IsStage (ps : List Packet) (v : View BlockDecoder) : Type 0 where
    untouched :
        IsEmpty n outs v
        → first_result q (new_decoder (u8 n) oti (transfer_length oti)) ps ≡ want
        → IsStage ps v
    partial :
        (s : BlockState BlockDecoder)
        → IsOpen base n outs s v
        → first_result q s.decoder ps ≡ want
        → IsStage ps v
    complete : (b : List ℕ) → want ≡ some b → IsEmpty (n + 1) (outs ++ (b ∷ [])) v → IsStage ps v
