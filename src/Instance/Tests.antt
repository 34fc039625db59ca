-- ===== src/Instance/Tests.antt =====
-- Concrete instance names, and the theorems applied to them.
use qiskit_ibm_provider.Common.{◌≡◌, refl, ok, raise}
use qiskit_ibm_provider.Instance.{
  from_instance_format, to_instance_format, input_value, from_instance_format-to_instance_format,
}

four_parts : from_instance_format "a/b/c/d" ≡ raise input_value
unfolding from_instance_format
four_parts = refl

from_instance_format-to_instance_format_example :
    from_instance_format (to_instance_format "ib" "o" "m") ≡ ok ("ib", "o", "m")
from_instance_format-to_instance_format_example =
    from_instance_format-to_instance_format "ib" "o" "m" (refl, (refl, tt)) (refl, tt) (refl, tt)
