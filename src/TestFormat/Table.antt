-- ===== src/TestFormat/Table.antt =====
-- `GetFormatMap` and `StringToTestResultFormat` of src/core/format_utils.cpp: the names and aliases of
-- the formats.
use duck_hunt.Prelude.{
  Option, none, some, List, [], ◌∷◌, Text, codes, starts_with, lookup, if◌then◌else◌,
}
use duck_hunt.TestFormat.{
  TestResultFormat, ansible_text, apache_access, auditd, auto, autopep8_text, aws_cloudtrail,
  azure_activity, bandit_json, bandit_text, bazel_build, black_text, bunyan, cargo_build,
  cargo_test_json, checkstyle_xml, cisco_asa, clang_tidy_text, clippy_json, cmake_build,
  coverage_text, docker_build, drone_ci_text, duckdb_test, eslint_json, flake8_text, gcc_text,
  gcp_cloud_logging, gdb_lldb, generic_lint, github_actions_text, github_cli, gitlab_ci_text,
  gotest_json, gradle_build, gtest_text, hadolint_json, iptables, isort_text, jenkins_text, jsonl,
  junit_text, junit_xml, ktlint_json, kube_score_json, kubernetes, lintr_json, log4j, logfmt,
  logrus, make_error, markdownlint_json, maven_build, mocha_chai_text, msbuild, mypy_text,
  nginx_access, nlog, node_build, nunit_xml, nunit_xunit_text, pf_firewall, phpstan_json, pino,
  pylint_text, pytest_cov_text, pytest_json, pytest_text, python_build, python_logging, rails_log,
  regexp, rspec_text, rubocop_json, ruby_logger, s3_access, serilog, shellcheck_json, spotbugs_json,
  sqlfluff_json, strace, stylelint_json, swiftlint_json, syslog, terraform_text, tflint_json,
  unknown, valgrind, vpc_flow, windows_event, winston, yamllint_json, yapf_text,
}

abbrev pub format_map : List (Text × TestResultFormat)
format_map =
    (codes "unknown", unknown)
    ∷ (codes "auto", auto)
    ∷ (codes "pytest_json", pytest_json)
    ∷ (codes "gotest_json", gotest_json)
    ∷ (codes "eslint_json", eslint_json)
    ∷ (codes "pytest_text", pytest_text)
    ∷ (codes "make_error", make_error)
    ∷ (codes "generic_lint", generic_lint)
    ∷ (codes "duckdb_test", duckdb_test)
    ∷ (codes "rubocop_json", rubocop_json)
    ∷ (codes "cargo_test_json", cargo_test_json)
    ∷ (codes "swiftlint_json", swiftlint_json)
    ∷ (codes "phpstan_json", phpstan_json)
    ∷ (codes "shellcheck_json", shellcheck_json)
    ∷ (codes "stylelint_json", stylelint_json)
    ∷ (codes "clippy_json", clippy_json)
    ∷ (codes "markdownlint_json", markdownlint_json)
    ∷ (codes "yamllint_json", yamllint_json)
    ∷ (codes "bandit_json", bandit_json)
    ∷ (codes "spotbugs_json", spotbugs_json)
    ∷ (codes "ktlint_json", ktlint_json)
    ∷ (codes "hadolint_json", hadolint_json)
    ∷ (codes "lintr_json", lintr_json)
    ∷ (codes "sqlfluff_json", sqlfluff_json)
    ∷ (codes "tflint_json", tflint_json)
    ∷ (codes "kube_score_json", kube_score_json)
    ∷ (codes "cmake_build", cmake_build)
    ∷ (codes "python_build", python_build)
    ∷ (codes "node_build", node_build)
    ∷ (codes "cargo_build", cargo_build)
    ∷ (codes "maven_build", maven_build)
    ∷ (codes "gradle_build", gradle_build)
    ∷ (codes "msbuild", msbuild)
    ∷ (codes "junit_text", junit_text)
    ∷ (codes "valgrind", valgrind)
    ∷ (codes "gdb_lldb", gdb_lldb)
    ∷ (codes "rspec_text", rspec_text)
    ∷ (codes "mocha_chai_text", mocha_chai_text)
    ∷ (codes "gtest_text", gtest_text)
    ∷ (codes "nunit_xunit_text", nunit_xunit_text)
    ∷ (codes "pylint_text", pylint_text)
    ∷ (codes "flake8_text", flake8_text)
    ∷ (codes "black_text", black_text)
    ∷ (codes "mypy_text", mypy_text)
    ∷ (codes "docker_build", docker_build)
    ∷ (codes "bazel_build", bazel_build)
    ∷ (codes "isort_text", isort_text)
    ∷ (codes "bandit_text", bandit_text)
    ∷ (codes "autopep8_text", autopep8_text)
    ∷ (codes "yapf_text", yapf_text)
    ∷ (codes "coverage_text", coverage_text)
    ∷ (codes "pytest_cov_text", pytest_cov_text)
    ∷ (codes "github_actions_text", github_actions_text)
    ∷ (codes "gitlab_ci_text", gitlab_ci_text)
    ∷ (codes "jenkins_text", jenkins_text)
    ∷ (codes "drone_ci_text", drone_ci_text)
    ∷ (codes "terraform_text", terraform_text)
    ∷ (codes "ansible_text", ansible_text)
    ∷ (codes "github_cli", github_cli)
    ∷ (codes "clang_tidy_text", clang_tidy_text)
    ∷ (codes "regexp", regexp)
    ∷ (codes "junit_xml", junit_xml)
    ∷ (codes "nunit_xml", nunit_xml)
    ∷ (codes "checkstyle_xml", checkstyle_xml)
    ∷ (codes "jsonl", jsonl)
    ∷ (codes "logfmt", logfmt)
    ∷ (codes "syslog", syslog)
    ∷ (codes "apache_access", apache_access)
    ∷ (codes "nginx_access", nginx_access)
    ∷ (codes "aws_cloudtrail", aws_cloudtrail)
    ∷ (codes "gcp_cloud_logging", gcp_cloud_logging)
    ∷ (codes "azure_activity", azure_activity)
    ∷ (codes "python_logging", python_logging)
    ∷ (codes "log4j", log4j)
    ∷ (codes "logrus", logrus)
    ∷ (codes "iptables", iptables)
    ∷ (codes "pf", pf_firewall)
    ∷ (codes "cisco_asa", cisco_asa)
    ∷ (codes "vpc_flow", vpc_flow)
    ∷ (codes "kubernetes", kubernetes)
    ∷ (codes "windows_event", windows_event)
    ∷ (codes "auditd", auditd)
    ∷ (codes "s3_access", s3_access)
    ∷ (codes "winston", winston)
    ∷ (codes "pino", pino)
    ∷ (codes "bunyan", bunyan)
    ∷ (codes "serilog", serilog)
    ∷ (codes "nlog", nlog)
    ∷ (codes "ruby_logger", ruby_logger)
    ∷ (codes "rails_log", rails_log)
    ∷ (codes "strace", strace)
    ∷ (codes "gcc_text", gcc_text)
    ∷ (codes "ndjson", jsonl)
    ∷ (codes "cloudtrail", aws_cloudtrail)
    ∷ (codes "gcp_logging", gcp_cloud_logging)
    ∷ (codes "azure_activity_log", azure_activity)
    ∷ (codes "python_log", python_logging)
    ∷ (codes "log4j_text", log4j)
    ∷ (codes "logback", log4j)
    ∷ (codes "logrus_text", logrus)
    ∷ (codes "winston_json", winston)
    ∷ (codes "pino_json", pino)
    ∷ (codes "bunyan_json", bunyan)
    ∷ (codes "serilog_json", serilog)
    ∷ (codes "serilog_text", serilog)
    ∷ (codes "nlog_text", nlog)
    ∷ (codes "ruby_log", ruby_logger)
    ∷ (codes "rails", rails_log)
    ∷ (codes "netfilter", iptables)
    ∷ (codes "ufw", iptables)
    ∷ (codes "pf_firewall", pf_firewall)
    ∷ (codes "openbsd_pf", pf_firewall)
    ∷ (codes "asa", cisco_asa)
    ∷ (codes "vpc_flow_logs", vpc_flow)
    ∷ (codes "aws_vpc_flow", vpc_flow)
    ∷ (codes "k8s", kubernetes)
    ∷ (codes "kube", kubernetes)
    ∷ (codes "windows_event_log", windows_event)
    ∷ (codes "eventlog", windows_event)
    ∷ (codes "audit", auditd)
    ∷ (codes "ssh_auth", auditd)
    ∷ (codes "s3_access_log", s3_access)
    ∷ (codes "pylint", pylint_text)
    ∷ (codes "mypy", mypy_text)
    ∷ (codes "flake8", flake8_text)
    ∷ (codes "black", black_text)
    ∷ (codes "yapf", yapf_text)
    ∷ (codes "autopep8", autopep8_text)
    ∷ (codes "clang_tidy", clang_tidy_text)
    ∷ (codes "clang-tidy", clang_tidy_text)
    ∷ (codes "make", make_error)
    ∷ (codes "gcc", gcc_text)
    ∷ (codes "g++", gcc_text)
    ∷ (codes "clang", gcc_text)
    ∷ (codes "clang++", gcc_text)
    ∷ (codes "cc", gcc_text)
    ∷ (codes "c++", gcc_text)
    ∷ (codes "gfortran", gcc_text)
    ∷ (codes "gnat", gcc_text)
    ∷ (codes "compiler_diagnostic", gcc_text)
    ∷ (codes "cmake", cmake_build)
    ∷ (codes "maven", maven_build)
    ∷ (codes "mvn", maven_build)
    ∷ (codes "gradle", gradle_build)
    ∷ (codes "cargo", cargo_build)
    ∷ (codes "rust", cargo_build)
    ∷ (codes "node", node_build)
    ∷ (codes "npm", node_build)
    ∷ (codes "yarn", node_build)
    ∷ (codes "pip", python_build)
    ∷ (codes "setuptools", python_build)
    ∷ (codes "bazel", bazel_build)
    ∷ (codes "visualstudio", msbuild)
    ∷ (codes "vs", msbuild)
    ∷ (codes "gtest", gtest_text)
    ∷ (codes "googletest", gtest_text)
    ∷ (codes "rspec", rspec_text)
    ∷ (codes "mocha", mocha_chai_text)
    ∷ (codes "chai", mocha_chai_text)
    ∷ (codes "nunit", nunit_xunit_text)
    ∷ (codes "xunit", nunit_xunit_text)
    ∷ (codes "pytest", pytest_text)
    ∷ (codes "pytest_cov", pytest_cov_text)
    ∷ (codes "pytest-cov", pytest_cov_text)
    ∷ (codes "gdb", gdb_lldb)
    ∷ (codes "lldb", gdb_lldb)
    ∷ (codes "coverage", coverage_text)
    ∷ (codes "go_test_json", gotest_json)
    ∷ (codes "gotest", gotest_json)
    ∷ (codes "eslint", eslint_json)
    ∷ []

abbrev or_unknown : Option TestResultFormat → TestResultFormat
or_unknown none = unknown
or_unknown (some f) = f

-- A text with the prefix is a pattern of its own; a name that the map does not have is unknown.
unfoldable pub string_to_test_result_format : Text → TestResultFormat
string_to_test_result_format s =
    if starts_with (codes "regexp:") s then regexp else or_unknown (lookup s format_map)
