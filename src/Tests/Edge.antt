-- ===== src/Tests/Edge.antt =====
-- The theorems on the command policy at concrete inputs.
mod Dispatch
mod Aws
mod Transport
use skybridge.Prelude.{◌≡◌, refl, [], ◌∷◌, Bytes, All, ok, err, bytes_equal}
use skybridge.Prelude.Text.{codes, contains, has_prefix, to_lower, trim_space}
use skybridge.Edge.Policy.{validate_read_only_aws_command, split_command, not_on_allowlist}
use skybridge.Edge.Policy.Shlex.{shlex_split}
use skybridge.Edge.Policy.ReadOnly.{IsReadOnly, validate_read_only_aws_command-IsReadOnly}
use skybridge.Edge.Policy.Argv.{IsPlain, split_command-IsPlain}
use skybridge.Tests.{ascii}

abbrev describe : Bytes
describe = codes " aws ec2 describe-instances"

describe_allowed : validate_read_only_aws_command ascii describe ≡ ok tt
unfolding validate_read_only_aws_command shlex_split trim_space to_lower contains has_prefix
    bytes_equal
describe_allowed = refl

describe_splits :
    split_command ascii describe ≡ ok (codes "aws" ∷ codes "ec2" ∷ codes "describe-instances" ∷ [])
unfolding split_command shlex_split trim_space
describe_splits = refl

-- An operation that writes is refused.
delete_refused :
    validate_read_only_aws_command ascii (codes "aws ec2 delete-vpc")
    ≡ err (not_on_allowlist (codes "delete-vpc"))
unfolding validate_read_only_aws_command shlex_split trim_space to_lower contains has_prefix
    bytes_equal
delete_refused = refl

-- Commands that give a secret and are allowed.
key_allowed :
    validate_read_only_aws_command ascii (codes "aws configure get aws_secret_access_key") ≡ ok tt
unfolding validate_read_only_aws_command shlex_split trim_space to_lower contains has_prefix
    bytes_equal
key_allowed = refl

secrets_allowed :
    validate_read_only_aws_command ascii (codes "aws secretsmanager batch-get-secret-value") ≡ ok tt
unfolding validate_read_only_aws_command shlex_split trim_space to_lower contains has_prefix
    bytes_equal
secrets_allowed = refl

validate_read_only_aws_command-IsReadOnly_example : IsReadOnly ascii (trim_space ascii describe)
validate_read_only_aws_command-IsReadOnly_example =
    validate_read_only_aws_command-IsReadOnly ascii describe describe_allowed
