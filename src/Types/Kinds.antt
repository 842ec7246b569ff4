-- ===== src/Types/Kinds.antt =====
-- src/types.ts: the texts of the resource kinds.
use cursor_setting_sync.Base.{
  Option, none, some, List, [], ◌∷◌, ◌≡◌, refl, sym, ap, ◌∙◌, ◌↔◌, arith, ◌==◌, if◌then◌else◌,
  list_beq,
}
use cursor_setting_sync.Base.Texts.{Text, units, text_eq}
use cursor_setting_sync.Types.{
  ResourceKind, settings, keybindings, snippet, task, prompt, mcp, extension, profile, ui_state,
  cursor_user_file, cursor_user_rules, remote_targets, chat, chat_transcript, chat_store,
  workspace_storage,
}

-- The union `ResourceKind` is a union of strings: the text of each member.
unfoldable pub kind_text : ResourceKind → Text
kind_text settings = units "settings"
kind_text keybindings = units "keybindings"
kind_text snippet = units "snippet"
kind_text task = units "task"
kind_text prompt = units "prompt"
kind_text mcp = units "mcp"
kind_text extension = units "extension"
kind_text profile = units "profile"
kind_text ui_state = units "ui-state"
kind_text cursor_user_file = units "cursor-user-file"
kind_text cursor_user_rules = units "cursor-user-rules"
kind_text remote_targets = units "remote-targets"
kind_text chat = units "chat"
kind_text chat_transcript = units "chat-transcript"
kind_text chat_store = units "chat-store"
kind_text workspace_storage = units "workspace-storage"

unfoldable pub supported_resource_kinds : List ResourceKind
supported_resource_kinds =
    settings ∷ keybindings ∷ snippet ∷ task ∷ prompt ∷ mcp ∷ extension ∷ profile ∷ ui_state
    ∷ cursor_user_file ∷ cursor_user_rules ∷ remote_targets ∷ chat ∷ chat_transcript ∷ chat_store
    ∷ workspace_storage ∷ []

unfoldable pub first_kind : Text → List ResourceKind → Option ResourceKind
first_kind value [] = none
first_kind value (k ∷ ks) = if kind_text k == value then some k else first_kind value ks

-- `isSupportedResourceKind`, with the kind to which it narrows its argument.
unfoldable pub supported_kind : Text → Option ResourceKind
unfolding first_kind supported_resource_kinds
supported_kind value = first_kind value supported_resource_kinds

first_kind_sound :
    (value : Text) (ks : List ResourceKind) (k : ResourceKind)
    → first_kind value ks ≡ some k
    → kind_text k ≡ value
unfolding first_kind
first_kind_sound value [] k h = absurd (cc)
first_kind_sound value (j ∷ js) k h =
    ground (arith, text_eq.equals_iff (kind_text j) value, first_kind_sound value js k)

kind-recognised : (k : ResourceKind) → supported_kind (kind_text k) ≡ some k
unfolding supported_kind kind_text list_beq
kind-recognised settings = refl
kind-recognised _ = refl

-- A text is recognised as a kind exactly if it is the text of that kind, for each of the sixteen.
pub supported_kind_iff :
    (value : Text) (k : ResourceKind) → (supported_kind value ≡ some k) ↔ (kind_text k ≡ value)
unfolding supported_kind
supported_kind_iff value k = (
  first_kind_sound value supported_resource_kinds k,
  λ e. ap supported_kind (sym e) ∙ kind-recognised k,
)
