-- ===== src/TestFormat/Canonical.antt =====
-- `GetCanonicalFormatName` of src/core/format_utils.cpp.
use duck_hunt.Prelude.{Text, codes, []}
use duck_hunt.TestFormat.{
  TestResultFormat, ansible_text, apache_access, auditd, autopep8_text, aws_cloudtrail,
  azure_activity, bandit_json, bandit_text, bazel_build, black_text, bunyan, cargo_build,
  cargo_test_json, checkstyle_xml, cisco_asa, clang_tidy_text, clippy_json, cmake_build,
  coverage_text, docker_build, drone_ci_text, duckdb_test, eslint_json, flake8_text, gcc_text,
  gcp_cloud_logging, gdb_lldb, generic_lint, github_actions_text, github_cli, gitlab_ci_text,
  gotest_json, gradle_build, gtest_text, hadolint_json, iptables, isort_text, jenkins_text, jsonl,
  junit_text, junit_xml, ktlint_json, kube_score_json, kubernetes, lintr_json, log4j, logfmt,
  logrus, make_error, markdownlint_json, maven_build, mocha_chai_text, msbuild, mypy_text,
  nginx_access, nlog, node_build, nunit_xml, nunit_xunit_text, pf_firewall, phpstan_json, pino,
  pylint_text, pytest_cov_text, pytest_json, pytest_text, python_build, python_logging, rails_log,
  rspec_text, rubocop_json, ruby_logger, s3_access, serilog, shellcheck_json, spotbugs_json,
  sqlfluff_json, strace, stylelint_json, swiftlint_json, syslog, terraform_text, tflint_json,
  valgrind, vpc_flow, windows_event, winston, yamllint_json, yapf_text,
}

-- The name under which the registry knows a format; empty where it has none.
unfoldable pub get_canonical_format_name : TestResultFormat → Text
get_canonical_format_name pytest_json = codes "pytest_json"
get_canonical_format_name gotest_json = codes "gotest_json"
get_canonical_format_name eslint_json = codes "eslint_json"
get_canonical_format_name pytest_text = codes "pytest_text"
get_canonical_format_name make_error = codes "make_error"
get_canonical_format_name gcc_text = codes "gcc_text"
get_canonical_format_name generic_lint = codes "generic_lint"
get_canonical_format_name duckdb_test = codes "duckdb_test"
get_canonical_format_name rubocop_json = codes "rubocop_json"
get_canonical_format_name cargo_test_json = codes "cargo_test_json"
get_canonical_format_name swiftlint_json = codes "swiftlint_json"
get_canonical_format_name phpstan_json = codes "phpstan_json"
get_canonical_format_name shellcheck_json = codes "shellcheck_json"
get_canonical_format_name stylelint_json = codes "stylelint_json"
get_canonical_format_name clippy_json = codes "clippy_json"
get_canonical_format_name markdownlint_json = codes "markdownlint_json"
get_canonical_format_name yamllint_json = codes "yamllint_json"
get_canonical_format_name bandit_json = codes "bandit_json"
get_canonical_format_name spotbugs_json = codes "spotbugs_json"
get_canonical_format_name ktlint_json = codes "ktlint_json"
get_canonical_format_name hadolint_json = codes "hadolint_json"
get_canonical_format_name lintr_json = codes "lintr_json"
get_canonical_format_name sqlfluff_json = codes "sqlfluff_json"
get_canonical_format_name tflint_json = codes "tflint_json"
get_canonical_format_name kube_score_json = codes "kube_score_json"
get_canonical_format_name cmake_build = codes "cmake_build"
get_canonical_format_name python_build = codes "python_build"
get_canonical_format_name node_build = codes "node_build"
get_canonical_format_name cargo_build = codes "cargo_build"
get_canonical_format_name maven_build = codes "maven_build"
get_canonical_format_name gradle_build = codes "gradle_build"
get_canonical_format_name msbuild = codes "msbuild"
get_canonical_format_name junit_text = codes "junit_text"
get_canonical_format_name valgrind = codes "valgrind"
get_canonical_format_name gdb_lldb = codes "gdb_lldb"
get_canonical_format_name rspec_text = codes "rspec_text"
get_canonical_format_name mocha_chai_text = codes "mocha_chai_text"
get_canonical_format_name gtest_text = codes "gtest_text"
get_canonical_format_name nunit_xunit_text = codes "nunit_xunit_text"
get_canonical_format_name pylint_text = codes "pylint_text"
get_canonical_format_name flake8_text = codes "flake8_text"
get_canonical_format_name black_text = codes "black_text"
get_canonical_format_name mypy_text = codes "mypy_text"
get_canonical_format_name docker_build = codes "docker_build"
get_canonical_format_name bazel_build = codes "bazel_build"
get_canonical_format_name isort_text = codes "isort_text"
get_canonical_format_name bandit_text = codes "bandit_text"
get_canonical_format_name autopep8_text = codes "autopep8_text"
get_canonical_format_name yapf_text = codes "yapf_text"
get_canonical_format_name coverage_text = codes "coverage_text"
get_canonical_format_name pytest_cov_text = codes "pytest_cov_text"
get_canonical_format_name github_actions_text = codes "github_actions_text"
get_canonical_format_name gitlab_ci_text = codes "gitlab_ci_text"
get_canonical_format_name jenkins_text = codes "jenkins_text"
get_canonical_format_name drone_ci_text = codes "drone_ci_text"
get_canonical_format_name terraform_text = codes "terraform_text"
get_canonical_format_name ansible_text = codes "ansible_text"
get_canonical_format_name github_cli = codes "github_cli"
get_canonical_format_name clang_tidy_text = codes "clang_tidy_text"
get_canonical_format_name junit_xml = codes "junit_xml"
get_canonical_format_name nunit_xml = codes "nunit_xml"
get_canonical_format_name checkstyle_xml = codes "checkstyle_xml"
get_canonical_format_name jsonl = codes "jsonl"
get_canonical_format_name logfmt = codes "logfmt"
get_canonical_format_name syslog = codes "syslog"
get_canonical_format_name apache_access = codes "apache_access"
get_canonical_format_name nginx_access = codes "nginx_access"
get_canonical_format_name aws_cloudtrail = codes "aws_cloudtrail"
get_canonical_format_name gcp_cloud_logging = codes "gcp_cloud_logging"
get_canonical_format_name azure_activity = codes "azure_activity"
get_canonical_format_name python_logging = codes "python_logging"
get_canonical_format_name log4j = codes "log4j"
get_canonical_format_name logrus = codes "logrus"
get_canonical_format_name iptables = codes "iptables"
get_canonical_format_name pf_firewall = codes "pf"
get_canonical_format_name cisco_asa = codes "cisco_asa"
get_canonical_format_name vpc_flow = codes "vpc_flow"
get_canonical_format_name kubernetes = codes "kubernetes"
get_canonical_format_name windows_event = codes "windows_event"
get_canonical_format_name auditd = codes "auditd"
get_canonical_format_name s3_access = codes "s3_access"
get_canonical_format_name winston = codes "winston"
get_canonical_format_name pino = codes "pino"
get_canonical_format_name bunyan = codes "bunyan"
get_canonical_format_name serilog = codes "serilog"
get_canonical_format_name nlog = codes "nlog"
get_canonical_format_name ruby_logger = codes "ruby_logger"
get_canonical_format_name rails_log = codes "rails_log"
get_canonical_format_name strace = codes "strace"
get_canonical_format_name _ = []
