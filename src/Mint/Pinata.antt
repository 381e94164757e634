-- ===== src/Mint/Pinata.antt =====
-- components/ConnectPinata.tsx and components/ui/UploadFiles.tsx: the two forms in front of the
-- upload. The answer of the Pinata service is an argument.
pub mod Connecting
mod Tests
use concordium_dapp_examples.Common.{
  ◌≡◌, Bool, true, false, List, [], ◌∷◌, ◌++◌, Text, codes, Option, none, some, Settled, fulfilled,
  rejected, length,
}
use concordium_dapp_examples.Js.{to_string}
use concordium_dapp_examples.Mint.Types.{File}

pub record State : Type 0 where
  pub error : Text
  pub processing : Bool
  pub pinata_jwt : Text

unfoldable pub initial_state : Text → State
initial_state jwt = record { error = []; processing = false; pinata_jwt = jwt }

-- `onChange`
unfoldable pub set_pinata_jwt : Text → State → State
set_pinata_jwt jwt s = record s { pinata_jwt = jwt }

-- `onOkClicked`, up to the question.
unfoldable pub on_ok_clicked : State → State
on_ok_clicked s = record s { processing = true }

-- The callbacks; `captured` is `state` at the click. The second part is the call of `onDone`. After a
-- valid token the component leaves its state alone.
unfoldable pub on_validated : (captured s : State) → Settled Bool → State × Option Text
on_validated captured s (fulfilled true) = (s, some captured.pinata_jwt)
on_validated captured s (fulfilled false) =
    (record captured { processing = false; error = codes "Invalid JWT" }, none)
on_validated captured s (rejected message) =
    (record captured { processing = false; error = message }, none)

-- A question to the service: the state at the click.
pub record World : Type 0 where
  pub state : State
  pub asked : List State
  pub done : List Text

-- The buttons are disabled while `processing`; the text field is not.
pub data Step : World → World → Type 0 where
  typed : (w : World) (jwt : Text) → Step w (record w { state = set_pinata_jwt jwt w.state })
  clicked :
      (w : World)
      → w.state.processing ≡ false
      → Step w (record w { state = on_ok_clicked w.state; asked = w.state ∷ w.asked })
  accepted :
      (w : World) (earlier later : List State) (captured : State) (jwt : Text)
      → w.asked ≡ earlier ++ (captured ∷ later)
      → (on_validated captured w.state (fulfilled true)).1 ≡ some jwt
      → Step w (record {
        state = (on_validated captured w.state (fulfilled true)).0;
        asked = earlier ++ later;
        done = jwt ∷ w.done;
      })
  refused :
      (w : World) (earlier later : List State) (captured : State) (r : Settled Bool)
      → w.asked ≡ earlier ++ (captured ∷ later)
      → (on_validated captured w.state r).1 ≡ none
      → Step w (record w { state = (on_validated captured w.state r).0; asked = earlier ++ later })

abbrev pub start : Text → World
start jwt = record { state = initial_state jwt; asked = []; done = [] }

pub data Reach (jwt : Text) : World → Type 0 where
  here : Reach jwt (start jwt)
  next : {w v : World} → Reach jwt w → Step w v → Reach jwt v

-- `UploadFiles`: the chosen files, and the message about them.
pub record UploadState : Type 0 where
  pub files : List File
  pub alert_open : Bool
  pub alert_message : Text

unfoldable pub initial_upload : List File → UploadState
initial_upload files = record { files = files; alert_open = false; alert_message = [] }

unfoldable pub on_files_changed : List File → UploadState → UploadState
on_files_changed added s = record {
  files = added;
  alert_open = true;
  alert_message = to_string 10 (length added) ++ codes " File(s) are loaded to cache memory";
}

unfoldable pub on_alert_closed : UploadState → UploadState
on_alert_closed s = record s { alert_open = false; alert_message = [] }
