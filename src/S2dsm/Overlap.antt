-- ===== src/S2dsm/Overlap.antt =====
-- Commands in progress at both prompts at once. A command on a page is a few moves of its process; the
-- answer to a request is one move, since the process that asks waits for it and the other one answers
-- from a thread of its own. The moves of the two processes alternate in any way. A page of 100 or more
-- is behind the end of `msi_array`.
pub mod Disjoint
pub mod Stale
pub mod Writers
pub mod Idle
pub mod Coherence
use sbu_cse_506_operating_sy.Prelude.{
  ℕ, ◌*◌, ◌≡◌, ◌<◌, ◌≢◌, true, false, some, List, [], ◌==◌, if◌then◌else◌,
}
use sbu_cse_506_operating_sy.S2dsm.Region.{page_size, Vm, write_string, read_string}
use sbu_cse_506_operating_sy.S2dsm.Protocol.{
  modified, shared, invalid, Node, System, set_state, read_op, invalidate_op, null_text, text_eq,
  communicate_with_peer, respond, max_pages,
}

-- What a process is at: the prompt; a write whose bytes are stored, or whose page is in state M and
-- whose request is next; a read that has its answer, or that waits for one for ever.
pub data Progress : Type 0 where
  at_prompt : Progress
  stored : ℕ → Progress
  marked : ℕ → Progress
  fetched : ℕ → List ℕ → Progress
  waiting : ℕ → Progress

pub record Duo : Type 0 where
  pub here : Node
  pub peer : Node
  pub doing : Progress
  pub peer_doing : Progress

abbrev pub exchange_sides : Duo → Duo
exchange_sides d = record {
  here = d.peer;
  peer = d.here;
  doing = d.peer_doing;
  peer_doing = d.doing;
}

module _ (vm : Vm) where
  pub data Move (d : Duo) : Duo → Type 0 where
    -- `updatePageContents`: the bytes, then `transitionStateOnWrite`: the state, then the request.
    store_message :
        (page : ℕ) (message : List ℕ)
        → d.doing ≡ at_prompt
        → Move d (record d {
          here = record (d.here) {
            region = write_string vm (page * page_size) message d.here.region;
          };
          doing = stored page;
        })
    mark :
        (page : ℕ)
        → d.doing ≡ stored page
        → page < max_pages
        → Move d (record d {
          here = record (d.here) { msi_array = set_state d.here.msi_array page modified };
          doing = marked page;
        })
    invalidate :
        (page : ℕ) {peer' : Node} {answer : List ℕ}
        → d.doing ≡ marked page
        → communicate_with_peer vm page invalidate_op d.peer ≡ some (peer', answer)
        → Move d (record d { peer = peer'; doing = at_prompt })
    -- `printPageContents` for a page in state I: its text and the request, then what is done with the
    -- answer.
    ask :
        (page : ℕ) {peer' : Node} {answer : List ℕ}
        → d.doing ≡ at_prompt
        → page < max_pages
        → d.here.msi_array page ≡ invalid
        → communicate_with_peer vm page read_op d.peer ≡ some (peer', answer)
        → Move d (record d {
          here = record (d.here) {
            region = (read_string vm 4097 (page * page_size) d.here.region).0;
          };
          peer = peer';
          doing = fetched page (vm.read_answer answer);
        })
    -- The same where the answer has no bytes, so that `read` does not return.
    wait :
        (page : ℕ) {peer' : Node}
        → d.doing ≡ at_prompt
        → page < max_pages
        → d.here.msi_array page ≡ invalid
        → respond vm page read_op d.peer ≡ (peer', [])
        → Move d (record d {
          here = record (d.here) {
            region = (read_string vm 4097 (page * page_size) d.here.region).0;
          };
          peer = peer';
          doing = waiting page;
        })
    keep :
        (page : ℕ) (answer : List ℕ)
        → d.doing ≡ fetched page answer
        → text_eq null_text answer ≡ false
        → Move d (record d {
          here = record {
            msi_array = set_state d.here.msi_array page shared;
            region = write_string vm (page * page_size) answer d.here.region;
          };
          doing = at_prompt;
        })
    drop :
        (page : ℕ) (answer : List ℕ)
        → d.doing ≡ fetched page answer
        → text_eq null_text answer ≡ true
        → Move d (record d {
          here = record (d.here) { region = vm.dont_need d.here.region page };
          doing = at_prompt;
        })

  -- A move of one process or of the other.
  pub data Turn (d u : Duo) : Type 0 where
    mine : Move d u → Turn d u
    theirs : {v : Duo} → Move (exchange_sides d) v → u ≡ exchange_sides v → Turn d u

  pub data Turns (d : Duo) : Duo → Type 0 where
    no_turn : Turns d d
    turned : {t u : Duo} → Turns d t → Turn t u → Turns d u
