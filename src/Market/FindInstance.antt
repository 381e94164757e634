-- ===== src/Market/FindInstance.antt =====
-- components/cis2/Cis2FindInstance.tsx: finding a CIS-2 contract by its index. The node is the
-- parameter `Node`: whether an instance exists, and whether it supports CIS-2.
pub mod Search
mod Tests
use concordium_dapp_examples.Common.{
  Bool, true, false, not, [], Text, codes, Option, none, some, Settled, fulfilled, rejected,
  is_empty, if◌then◌else◌, ◌>>=◌,
}
use concordium_dapp_examples.Common.Int.{ℤ, pos, leb_ℤ}
use concordium_dapp_examples.Js.{bigint, bigint_to_string}
use concordium_dapp_examples.Client.{ContractAddress}

pub record State : Type 0 where
  pub error : Text
  pub checking : Bool

pub record Form : Type 0 where
  pub index : Text
  pub subindex : Text

abbrev pub initial_state : State
initial_state = record { error = []; checking = false }

-- `props.address?.index.toString() ?? '0'`
unfoldable pub initial_form : Option ContractAddress → Form
initial_form none = record { index = codes "0"; subindex = codes "0" }
initial_form (some a) = record {
  index = bigint_to_string a.index;
  subindex = bigint_to_string a.subindex;
}

-- `CIS0.SupportResult` by its `type`.
pub data Support : Type 0 where
  support support_by no_support : Support

-- `getInstanceInfo` and `cis0Supports`, whose result may be `undefined`.
pub record Node : Type 0 where
  pub instance_info : ContractAddress → Settled (Unit {0})
  pub cis0_supports : ContractAddress → Settled (Option Support)

-- What `submit` does: `BigInt` throws after the first `setState`, an index is refused, or the node
-- is asked about an address.
pub data Submitted : Type 0 where
  thrown : State → Submitted
  refused : State → Submitted
  asked : State → ContractAddress → Submitted

abbrev checked : State → State
checked s = record s { error = []; checking = true }

check_address : State → ℤ → ℤ → Submitted
check_address s index subindex =
    if not (leb_ℤ (pos 0) index)
    then refused (record s { error = codes "Invalid Contract Index" })
    else if not (leb_ℤ (pos 0) subindex)
    then refused (record s { error = codes "Invalid Contract Subindex" })
    else asked (checked s) (record { index = index; subindex = subindex })

read_address : State → Option ℤ → Option ℤ → Submitted
unfolding check_address
read_address s none subindex = thrown (checked s)
read_address s (some index) none = thrown (checked s)
read_address s (some index) (some subindex) = check_address s index subindex

unfoldable pub submit : Form → State → Submitted
unfolding read_address
submit form s = read_address s (bigint form.index) (bigint form.subindex)

-- The node's answer about an address.
unfoldable pub answer : Node → ContractAddress → Settled (Option Support)
answer node a = node.instance_info a >>= λ _. node.cis0_supports a

-- The callbacks of the question; `captured` is `state` at the submit. The second part says whether
-- `onDone` is called with the address.
unfoldable pub on_answer : (captured : State) → Settled (Option Support) → State × Bool
on_answer captured (fulfilled none) = (
  record captured { checking = false; error = codes "Could not check if contract supports CIS-2" },
  false,
)
on_answer captured (fulfilled (some support)) =
    (record captured { checking = false; error = [] }, true)
on_answer captured (fulfilled (some support_by)) =
    (record captured { checking = false; error = codes "Contract does not support CIS-2" }, false)
on_answer captured (fulfilled (some no_support)) =
    (record captured { checking = false; error = codes "Contract does not support CIS-2" }, false)
on_answer captured (rejected message) =
    (record captured { checking = false; error = message }, false)

-- What the form shows: the error, whether it says `Checking..`, and whether `Find` can be clicked.
pub record View : Type 0 where
  pub shown_error : Option Text
  pub shows_checking : Bool
  pub find_disabled : Bool

unfoldable pub view : State → View
view s = record {
  shown_error = if is_empty s.error then none else some s.error;
  shows_checking = s.checking;
  find_disabled = s.checking;
}
