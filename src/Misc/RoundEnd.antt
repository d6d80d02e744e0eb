-- ===== src/Misc/RoundEnd.antt =====
-- reapi/src/natives/natives_misc.cpp: rg_round_end and the texts that announce the end of a round.
use reapi.Members.Natives.{Call}
use reapi.Misc.Players.{is_empty_text}
use reapi.Misc.Items.{is_text}
use reapi.Misc.Calls.{
  send_audio, cell, text, message, end_round_message, terminate_round, round_end_chain,
  message_begin, write_byte, write_string, write_short, message_end, invoke, call, short_text_arg,
}
use reapi.Misc.{Native, Statement, true_cell, refuse, check_game_rules}
use mathlib.Core.Option
use reapi.Prelude.Programs.{finish, perform, ◌>>=◌, ◌>>◌, when}
use reapi.Prelude.{
  ℕ, not, ◌||◌, List, [], ◌∷◌, ◌++◌, ltb, ◌==◌, if◌then◌else◌, get_elem?, take, get_or,
}

-- The sentences in `msg_sentence_list`.
abbrev terwin : List ℕ
terwin = 116 ∷ 101 ∷ 114 ∷ 119 ∷ 105 ∷ 110 ∷ []

abbrev ctwin : List ℕ
ctwin = 99 ∷ 116 ∷ 119 ∷ 105 ∷ 110 ∷ []

abbrev rounddraw : List ℕ
rounddraw = 114 ∷ 111 ∷ 117 ∷ 110 ∷ 100 ∷ 100 ∷ 114 ∷ 97 ∷ 119 ∷ []

-- An entry: the message, the sentence and the status, which is not read.
pub record RoundText : Type 0 where
  pub shown : List ℕ
  pub sentence : List ℕ
  pub status : ℕ

abbrev entry : List ℕ → List ℕ → ℕ → RoundText
entry shown sentence status = record { shown = shown; sentence = sentence; status = status }

-- `msg_sentence_list`, by the event that ends the round.
unfoldable pub msg_sentence_list : List RoundText
msg_sentence_list =
    entry [] [] 0
    ∷ entry (35 ∷ 84 ∷ 97 ∷ 114 ∷ 103 ∷ 101 ∷ 116 ∷ 95 ∷ 66 ∷ 111 ∷ 109 ∷ 98 ∷ 101 ∷ 100 ∷ [])
        terwin 2
    ∷ entry (35 ∷ 86 ∷ 73 ∷ 80 ∷ 95 ∷ 69 ∷ 115 ∷ 99 ∷ 97 ∷ 112 ∷ 101 ∷ 100 ∷ []) ctwin 1
    ∷ entry
        (35 ∷ 86 ∷ 73 ∷ 80 ∷ 95 ∷ 65 ∷ 115 ∷ 115 ∷ 97 ∷ 115 ∷ 115 ∷ 105 ∷ 110 ∷ 97 ∷ 116 ∷ 101 ∷ 100
          ∷ [])
        terwin 2
    ∷ entry
        (35 ∷ 84 ∷ 101 ∷ 114 ∷ 114 ∷ 111 ∷ 114 ∷ 105 ∷ 115 ∷ 116 ∷ 115 ∷ 95 ∷ 69 ∷ 115 ∷ 99 ∷ 97
          ∷ 112 ∷ 101 ∷ 100 ∷ [])
        terwin 2
    ∷ entry
        (35 ∷ 67 ∷ 84 ∷ 115 ∷ 95 ∷ 80 ∷ 114 ∷ 101 ∷ 118 ∷ 101 ∷ 110 ∷ 116 ∷ 69 ∷ 115 ∷ 99 ∷ 97 ∷ 112
          ∷ 101 ∷ [])
        ctwin 1
    ∷ entry
        (35 ∷ 69 ∷ 115 ∷ 99 ∷ 97 ∷ 112 ∷ 105 ∷ 110 ∷ 103 ∷ 95 ∷ 84 ∷ 101 ∷ 114 ∷ 114 ∷ 111 ∷ 114
          ∷ 105 ∷ 115 ∷ 116 ∷ 115 ∷ 95 ∷ 78 ∷ 101 ∷ 117 ∷ 116 ∷ 114 ∷ 97 ∷ 108 ∷ 105 ∷ 122 ∷ 101
          ∷ 100 ∷ [])
        ctwin 1
    ∷ entry (35 ∷ 66 ∷ 111 ∷ 109 ∷ 98 ∷ 95 ∷ 68 ∷ 101 ∷ 102 ∷ 117 ∷ 115 ∷ 101 ∷ 100 ∷ []) ctwin 1
    ∷ entry (35 ∷ 67 ∷ 84 ∷ 115 ∷ 95 ∷ 87 ∷ 105 ∷ 110 ∷ []) ctwin 1
    ∷ entry
        (35 ∷ 84 ∷ 101 ∷ 114 ∷ 114 ∷ 111 ∷ 114 ∷ 105 ∷ 115 ∷ 116 ∷ 115 ∷ 95 ∷ 87 ∷ 105 ∷ 110 ∷ [])
        terwin 2
    ∷ entry (35 ∷ 82 ∷ 111 ∷ 117 ∷ 110 ∷ 100 ∷ 95 ∷ 68 ∷ 114 ∷ 97 ∷ 119 ∷ []) rounddraw 3
    ∷ entry
        (35 ∷ 65 ∷ 108 ∷ 108 ∷ 95 ∷ 72 ∷ 111 ∷ 115 ∷ 116 ∷ 97 ∷ 103 ∷ 101 ∷ 115 ∷ 95 ∷ 82 ∷ 101
          ∷ 115 ∷ 99 ∷ 117 ∷ 101 ∷ 100 ∷ [])
        ctwin 1
    ∷ entry (35 ∷ 84 ∷ 97 ∷ 114 ∷ 103 ∷ 101 ∷ 116 ∷ 95 ∷ 83 ∷ 97 ∷ 118 ∷ 101 ∷ 100 ∷ []) ctwin 1
    ∷ entry
        (35 ∷ 72 ∷ 111 ∷ 115 ∷ 116 ∷ 97 ∷ 103 ∷ 101 ∷ 115 ∷ 95 ∷ 78 ∷ 111 ∷ 116 ∷ 95 ∷ 82 ∷ 101
          ∷ 115 ∷ 99 ∷ 117 ∷ 101 ∷ 100 ∷ [])
        terwin 2
    ∷ entry
        (35 ∷ 84 ∷ 101 ∷ 114 ∷ 114 ∷ 111 ∷ 114 ∷ 105 ∷ 115 ∷ 116 ∷ 115 ∷ 95 ∷ 78 ∷ 111 ∷ 116 ∷ 95
          ∷ 69 ∷ 115 ∷ 99 ∷ 97 ∷ 112 ∷ 101 ∷ 100 ∷ [])
        ctwin 1
    ∷ entry
        (35 ∷ 86 ∷ 73 ∷ 80 ∷ 95 ∷ 78 ∷ 111 ∷ 116 ∷ 95 ∷ 69 ∷ 115 ∷ 99 ∷ 97 ∷ 112 ∷ 101 ∷ 100 ∷ [])
        terwin 2
    ∷ entry
        (35 ∷ 71 ∷ 97 ∷ 109 ∷ 101 ∷ 95 ∷ 67 ∷ 111 ∷ 109 ∷ 109 ∷ 101 ∷ 110 ∷ 99 ∷ 105 ∷ 110 ∷ 103
          ∷ [])
        [] 3
    ∷ entry [] [] 3
    ∷ entry
        (35 ∷ 67 ∷ 115 ∷ 116 ∷ 114 ∷ 105 ∷ 107 ∷ 101 ∷ 95 ∷ 84 ∷ 117 ∷ 116 ∷ 111 ∷ 114 ∷ 95 ∷ 82
          ∷ 111 ∷ 117 ∷ 110 ∷ 100 ∷ 95 ∷ 79 ∷ 118 ∷ 101 ∷ 114 ∷ [])
        rounddraw 3
    ∷ []

-- "default", and "%!MRAD_" in front of a sentence.
abbrev default_text : List ℕ
default_text = 100 ∷ 101 ∷ 102 ∷ 97 ∷ 117 ∷ 108 ∷ 116 ∷ []

abbrev radio_prefix : List ℕ
radio_prefix = 37 ∷ 33 ∷ 77 ∷ 82 ∷ 65 ∷ 68 ∷ 95 ∷ []

-- Broadcast of reapi_utils.cpp: a message to all (MSG_BROADCAST, 0), the text cut off at 127.
unfoldable pub broadcast : List ℕ → Statement
broadcast spoken rest = do
  perform (call message_begin (cell 0 ∷ message send_audio ∷ []))
  perform (call write_byte (cell 0 ∷ []))
  perform (call write_string (text (take 127 (radio_prefix ++ spoken)) ∷ []))
  perform (call write_short (cell 100 ∷ []))
  perform (call message_end []) rest

-- The texts of an event: those of the table for "default", unless there is no event.
unfoldable pub round_text : (RoundText → List ℕ) → ℕ → List ℕ → List ℕ
unfolding msg_sentence_list is_text
round_text part event given =
    if event == 0
    then given
    else if is_text given default_text
    then get_or (Option.map part (get_elem? msg_sentence_list event)) given
    else given

-- EndRoundMessage and TerminateRound, which the original of the hook chain calls too.
unfoldable pub end_round : ℕ → List ℕ → ℕ → ℕ → ℕ → Native
end_round rules said event delay status = do
  perform (invoke end_round_message rules (text said ∷ cell event ∷ []))
  perform (invoke terminate_round rules (cell delay ∷ cell status ∷ []))
  finish true_cell

-- WINSTATUS_DRAW is 3 and ROUND_GAME_OVER 18. With a trigger callForward runs the hook chain of
-- RG_RoundEnd, and its value is returned.
unfoldable pub rg_round_end : Call → Native
unfolding broadcast round_text end_round
rg_round_end args = do
  rules ← check_game_rules
  let event = args.params 3 in
      let spoken = round_text (λ t. t.sentence) event (short_text_arg args 5) in
      let said = round_text (λ t. t.shown) event (short_text_arg args 4) in
      if ltb 3 (args.params 2) || ltb 18 event then refuse else (do
        when (not (is_empty_text spoken)) (broadcast spoken)
        if args.params 6 == 0
            then end_round rules said event (args.params 1) (args.params 2)
            else perform
                (call round_end_chain
                  (text said ∷ cell (args.params 2) ∷ cell event ∷ cell (args.params 1) ∷ []))
                finish)
